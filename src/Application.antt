-- ===== src/Application.antt =====
-- The application layer: social_api/src/application.
pub mod Commands
pub mod LikeService
pub mod Sse
