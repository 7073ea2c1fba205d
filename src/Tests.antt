-- ===== src/Tests.antt =====
-- Concrete runs of the code, and the theorems applied at concrete inputs.
mod Data
mod Config
mod Render
mod Webhook
mod Controller
mod Workspace
mod Helm
mod Cron
mod Services
mod Reconcile
mod Custom
mod Volumes
