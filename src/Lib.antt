-- ===== src/Lib.antt =====
-- Verification library of the like service (social_api, Rust): likes of content by users, their
-- counts, a leaderboard, and a stream of like events.
--
-- The program. A request passes the middleware of social_api/src/api/middleware.rs and a handler of
-- api/handlers.rs, which calls a method of `LikeService` (application/like_service.rs). The service
-- works over three traits of social_api/src/domain: the database of likes (implemented in
-- infrastructure/postgres), the cache of counts and leaderboards (infrastructure/redis), and the
-- validator of users and content (infrastructure/clients), which calls HTTP services through a
-- circuit breaker. Events go through Redis to the SSE manager (application/sse.rs), which hands them
-- to the streams of the clients. social_api/src/main.rs puts the parts together.
--
-- The files, and the code they are about (below social_api/src):
--   Prelude             shared names, Boolean tests, lists over native numbers, association lists,
--                       and results of asynchronous methods that may fail
--   Domain              domain: errors, identifiers, likes, and the traits as records of methods
--   Api/Dto             api/dto.rs; the cursor codec over base64 and JSON
--   Api/Errors          api/errors.rs; Mapping: which status an error has
--   Api/RequestId       api/request_id.rs
--   Api/Handlers        api/handlers.rs and api/health.rs
--   Api/Middleware      api/middleware.rs; Guards: who gets through
--   Api/Tracing         the tracing layer of api/middleware.rs
--   Api/App             lib.rs: the routes and their layers; Access: who reaches a handler;
--                       Correlation: the layers around all routes, and a request's identifier;
--                       Metrics: the process's one recorder, and its upkeep
--   Application/Commands           application/commands.rs
--   Application/LikeService        application/like_service.rs: Service (the struct, its flight
--                       locks and spawned tasks), Counts, Likes, Batch, Listing, Leaderboard, Tasks.
--                       Backend: what its theorems take of the repositories. Fallback, Drift,
--                       Sequence, Interruption (a like during a read of the count), Batch/Leak,
--                       Listing/Pages, Leaderboard/Staleness: theorems
--   Application/Sse     application/sse.rs and `sse_stream`; Routing: who receives an event;
--                       Listener: the task to its end; Delivery and Alone: what a subscriber
--                       receives; Clients: what it is sent until the shutdown
--   Infrastructure/Config          infrastructure/config.rs; ContentApis: the content services
--   Infrastructure/Dto             infrastructure/dto.rs
--   Infrastructure/Breaker         infrastructure/clients/circuit_breaker.rs; History and Trips:
--                       the breaker against the history of its calls, with Streaks, the state of
--                       its specification; Interleaving: calls that overlap, as steps on the
--                       atomics; Races, Tally, Leaks: their theorems
--   Infrastructure/Validator       infrastructure/clients/http_external_validator.rs; Caching and
--                       Denials: caching, flights, and rejected tokens; Sharing: waiting for a flight
--   Infrastructure/Postgres        infrastructure/postgres/like_repository.rs: Sql (what the
--                       statements say of a list of rows), Repository (the methods), Table, Order,
--                       Paging, Counts, Calls (lemmas), Top (the leaderboard)
--   Infrastructure/Redis           infrastructure/redis/like_repository.rs: Keys, Client (the
--                       commands of the crate), Repository, Laws (what the server documents),
--                       Counters (lemmas), Leaderboard (written and read), RateLimit
--                       (`check_limit` and rate_limit.lua; Numbers: rounding; Bound: what it allows)
--   Infrastructure/Wiring          main.rs: the service over both stores; Refinement: it is such a
--                       service as LikeService/Backend asks for; Walk: a client that reads all
--                       pages; Statuses, Batches: batches of statuses and of counts; Limits:
--                       the rate limiter's layer over Redis; Leaderboards: what is cached of the
--                       database's; Events: from a published like to a subscriber; Startup: `main`
--                       and `shutdown_signal`
--   Mocks               mocks/src beside social_api: the profile service and the content service
--                       for tests; Startup: `main`; Validation: the validator against them
--   Tests               the theorems at concrete inputs, over a small Redis server
--
-- How code becomes definitions. A method is a function from a world to a result and a world: what
-- an error leaves changed stays changed. A world holds the rows of the table, the Redis server, the
-- flight locks, and the tasks given to `tokio::spawn`, which run when the theorem says so. A
-- `DashMap` and a `HashMap` are association lists. Numbers are natural numbers; where the code
-- wraps (the breaker's counter, `limit + 1`, casts to i64) the wrap-around is written out. Code of
-- other crates is a parameter: Redis commands, HTTP requests, JSON, base64, the clock, the order
-- that the database leaves open, and the validity of a UUID; its documented behaviour is a record
-- of laws (RedisLaws, StringLaws, PubSubLaws, BroadcastLaws, CodecLaws, EventJson, UuidText,
-- BucketLaws, Rounds) where
-- a theorem needs it.
--
-- Bounds. Calls are made one after another, except where the code is modelled with others at work: a
-- waiting task says what the others do in its wait (a mutex of the service by `until_granted`, a
-- flight of the validator by a schedule with one entry per 50 ms), Interruption says what they do
-- between two accesses of a request, and Interleaving runs any number of tasks on the breaker, one
-- access at a time. `validate_content` recurses on its schedule and returns none only when that ends
-- during a wait. The listener recurses on the rounds of its loop, which hold what wakes it; a run
-- that ends by its rounds is told from one that returns. A client's walk through the pages recurses
-- on a number of rounds, and one more than the likes is shown to be enough. Counters of Redis are
-- signed 64-bit numbers and the breaker's is an unsigned 32-bit number, so theorems that count have
-- room as a hypothesis.
-- The rate limiter computes with floating-point numbers, given by their operations; the bound on
-- what it allows takes from IEEE 754 that a result is rounded by at most its 2^53-rd part.
--
-- Not modelled: the set-up of the logger, the text of /metrics, pools and connections, the
-- expiry of Redis keys other than as a change of the server between calls, what the breaker, the
-- service and the monitor of Redis log, and the deployment files.
pub mod Prelude
pub mod Domain
pub mod Api
pub mod Infrastructure
pub mod Mocks
pub mod Application
pub mod Tests
