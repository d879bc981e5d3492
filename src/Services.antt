-- ===== src/Services.antt =====
-- src/services.
pub mod Canonical
pub mod Executions
pub mod Workflows
