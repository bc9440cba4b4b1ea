-- ===== src/Auth.antt =====
-- The authorization of requests, mlflow_kubernetes_plugins/auth.
pub mod Expiring
pub mod Lock
pub mod Identity
pub mod Access
pub mod Credentials
pub mod Settings
pub mod Rules
pub mod Tables
pub mod Request
pub mod Authorize
pub mod Templates
pub mod PathParams
pub mod Fastapi
pub mod Compiler
