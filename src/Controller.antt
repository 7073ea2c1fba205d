-- ===== src/Controller.antt =====
-- The reconcilers of internal/controller.
pub mod Retry
pub mod Connection
pub mod Module
pub mod Workspace
pub mod Cron
pub mod Managed
