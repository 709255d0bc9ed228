-- ===== src/Platform.antt =====
-- service.py: what users do to runs. Each operation is one transaction over the database; what the
-- clock reads during a call is the argument `t`, and an operation's result is its value beside the
-- database that it leaves.
pub mod Access
pub mod Submit
pub mod Cancel
pub mod Review
pub mod Reconcile
pub mod Admission
pub mod Verdict
pub mod Consent
pub mod Memory
pub mod Listing
pub mod Agents
pub mod Ingest
pub mod Redelivery
