-- ===== src/Lifecycle/Evolution/Users.antt =====
-- What users do changes runs by transitions only.
mod Deciding
mod Submitting
mod Batches
mod Grouping
pub use Deciding.{cancel-Evolves, review-Evolves, reconcile-Evolves}
pub use Submitting.{IsFresh, snapshot_from-length, submit-Evolves}
pub use Batches.{AreFresh, ingest-Evolves}
pub use Grouping.{AreAccepted, submit_group-Evolves}
