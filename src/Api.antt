-- ===== src/Api.antt =====
-- The API types of api/v1 with their methods.
pub mod Meta
pub mod Workspace
pub mod Module
pub mod Any
pub mod Config
pub mod Render
