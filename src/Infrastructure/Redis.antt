-- ===== src/Infrastructure/Redis.antt =====
-- social_api/src/infrastructure/redis/like_repository.rs
pub mod Keys
pub mod Client
pub mod Laws
pub mod Repository
pub mod Counters
pub mod Leaderboard
pub mod RateLimit
