-- ===== src/Recall.antt =====
-- The memory of a workspace: search in it and its redaction (service.py), and the index of vectors
-- beside it (memory.py).
pub mod Shelf
pub mod Search
pub mod Redact
pub mod Semantic
pub mod Index
pub mod Vectors
pub mod Erased
pub mod Forgotten
pub mod Newest
pub mod Latest
