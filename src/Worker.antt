-- ===== src/Worker.antt =====
-- runtime.py: the worker, which claims runs, prepares one step under a lease, and records how its
-- execution ended. Each method is one transaction; what the clock reads during a call is the
-- argument `t`, `t k` at the k-th reading.
mod Defs
pub use Defs.{lease_open, lease_holds, Failure, Reply, delivered, failure, timed_out, broke}
pub mod Recover
pub mod Claim
pub mod Prepare
pub mod Finish
pub mod Authority
pub mod Fence
