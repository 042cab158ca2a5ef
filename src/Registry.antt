-- ===== src/Registry.antt =====
-- apps/desktop/src-tauri/src/operation_registry.rs: the manifests of the operations, and which
-- requests for a job are accepted.
pub mod Manifests
pub mod CorePdf
pub mod Requests
pub mod Limits
mod Tests
