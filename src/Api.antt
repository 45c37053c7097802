-- ===== src/Api.antt =====
-- The HTTP layer: social_api/src/api.
pub mod Dto
pub mod Errors
pub mod RequestId
pub mod Handlers
pub mod Middleware
pub mod Tracing
pub mod App
