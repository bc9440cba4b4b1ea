-- ===== src/Workspace.antt =====
-- mlflow_kubernetes_plugins/workspace_plugin: Kubernetes namespaces as MLflow workspaces.
pub mod Globs
pub mod Config
pub mod Manifest
pub mod Namespaces
pub mod Configs
pub mod Secrets
pub mod Paths
pub mod Provider
