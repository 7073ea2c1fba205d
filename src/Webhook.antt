-- ===== src/Webhook.antt =====
-- The admission webhooks of internal/webhook/v1.
pub mod Field
pub mod Workspace
pub mod Module
