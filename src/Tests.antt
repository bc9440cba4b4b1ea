-- ===== src/Tests.antt =====
-- Runs of the model at concrete inputs, and the theorems at inputs that meet their hypotheses.
pub mod Namespaces
pub mod Storage
pub mod Access
pub mod Credentials
pub mod Requests
pub mod Locks
pub mod Lookups
pub mod PathParams
pub mod Fastapi
pub mod Settings
