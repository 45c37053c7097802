-- ===== src/Domain.antt =====
-- The domain layer: social_api/src/domain.
pub mod Errors
pub mod Model
pub mod Ports
pub mod Uuids
