-- ===== src/Infrastructure.antt =====
-- The adapters: social_api/src/infrastructure.
pub mod Breaker
pub mod Config
pub mod Dto
pub mod Postgres
pub mod Redis
pub mod Validator
pub mod Wiring
