-- ===== src/Examples.antt =====
-- The theorems applied at concrete inputs.
mod World
mod Adapters
mod Memories
mod Events
mod Missions
mod Governance
mod Gateways
mod Leases
mod Users
mod Lives
mod Reference
mod Services
