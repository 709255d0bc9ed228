-- ===== src/Workflows.antt =====
-- workflows.py: deterministic data flow between the steps of a run.
pub mod Pointer
pub mod Flow
