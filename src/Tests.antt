-- ===== src/Tests.antt =====
-- The theorems at concrete inputs: a user who likes and unlikes post 7, over a small Redis server.
mod Fixtures
mod Likes
mod Stores
mod Clients
mod Mocked
mod Overlaps
mod Requests
mod Sequences
mod Streams
mod Radio
mod Limits
mod Batches
mod Leaderboards
mod Access
mod Environment
