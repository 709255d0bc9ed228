-- ===== src/Extensions.antt =====
-- extensions.py: the endpoints of version 2 that keep state of their own or run stored workflows.
pub mod Groups
pub mod Team
pub mod Templates
pub mod Reruns
pub mod Readback
pub mod Overview
