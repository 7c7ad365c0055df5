-- ===== src/Discovery.antt =====
-- The discovery pipeline (pkg/discovery): repository names, object names, and the steps that turn
-- repository events into API objects.
pub mod Repository
pub mod Sanitize
