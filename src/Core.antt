-- ===== src/Core.antt =====
-- rednexus/core.py: the reference runtime of one process. A handler is a function from the input of
-- its step and the outputs so far to its output or the name of the exception that it ends in. Each
-- `with self.db` is one write of the state; the messages of exceptions are left out.
pub mod Rows
pub mod Submit
pub mod Advance
pub mod Decide
pub mod Separation
