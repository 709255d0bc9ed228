-- ===== src/Lifecycle/Evolution/Workers.antt =====
-- The worker's methods change runs by transitions only.
mod Claiming
mod Preparing
mod Finishing
mod Recovering
pub use Claiming.{claim_one-Evolves, claim-Evolves}
pub use Preparing.{prepare-Evolves}
pub use Finishing.{finish-Evolves}
pub use Recovering.{recover-Evolves}
