-- ===== src/Infrastructure/Postgres.antt =====
-- social_api/src/infrastructure/postgres/like_repository.rs
pub mod Sql
pub mod Table
pub mod Order
pub mod Top
pub mod Paging
pub mod Repository
pub mod Calls
pub mod Counts
