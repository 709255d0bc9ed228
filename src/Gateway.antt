-- ===== src/Gateway.antt =====
-- The registry and the gateway of adapters.py, and the validation of a capability contract.
pub mod Specs
pub mod Catalog
pub mod Execute
pub mod Covered
