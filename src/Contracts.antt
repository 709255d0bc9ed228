-- ===== src/Contracts.antt =====
-- contracts.py: capability contracts, workflow steps and the decisions that users send. The union of
-- literals that a field admits is a data type; texts that are only compared stay texts.
pub mod Dump
pub mod Accept
mod Types
pub use Types.*
