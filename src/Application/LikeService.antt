-- ===== src/Application/LikeService.antt =====
-- social_api/src/application/like_service.rs, by the methods' purpose.
pub mod Service
pub mod Backend
pub mod Counts
pub mod Fallback
pub mod Drift
pub mod Interruption
pub mod Likes
pub mod Sequence
pub mod Batch
pub mod Listing
pub mod Leaderboard
pub mod Tasks
