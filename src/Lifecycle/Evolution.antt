-- ===== src/Lifecycle/Evolution.antt =====
-- How a table of runs may change: each row by transitions, and new rows well formed and queued.
mod Defs
pub use Defs.*
mod Transactions
pub mod Workers
pub mod Users
