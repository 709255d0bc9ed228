-- ===== src/Lifecycle.antt =====
-- The life of a run: an abstract specification of what the operations of runtime.py and service.py
-- may do to it, and what follows from that for every run.
mod Transition
pub mod WellFormed
pub mod History
pub mod Evolution
pub mod Reachable
pub mod Stopped
pub mod Safety
pub mod Diagram
pub mod Edges
pub mod Refinement
pub use Transition.*
