-- ===== src/Infrastructure/Wiring/Leaderboards.antt =====
-- The leaderboard of the wired service: what the database has answered once, by a request or by the
-- refresh task, is what Redis serves until it expires.
use be_in_crypto_social_api.Prelude.{
  ℕ, suc, ℤ, min_ℕ, Text, Text-discrete, codes, ◌≡◌, refl, List, Option, none, some, true, holds,
  if◌then◌else◌, inl, inr, arith,
}
use be_in_crypto_social_api.Prelude.Exec.{ok, Result-cases}
use be_in_crypto_social_api.Domain.Errors.{cache_miss}
use be_in_crypto_social_api.Domain.Model.{DateTime, ContentType, as_opt}
use be_in_crypto_social_api.Domain.Ports.{ExternalValidator}
use be_in_crypto_social_api.Api.Dto.{TopLikeItem, TopLikesResponse}
use be_in_crypto_social_api.Application.LikeService.Service.{LikeService, State, Mutex, refresh}
use be_in_crypto_social_api.Application.LikeService.Leaderboard.{window_since, get_top_likes}
use be_in_crypto_social_api.Application.LikeService.Leaderboard.Staleness.{fresh_hit, miss}
use be_in_crypto_social_api.Application.LikeService.Tasks.{canary_ttl, store_refreshed, run_task}
use be_in_crypto_social_api.Infrastructure.Postgres.Repository.{
  PgPool, Server, postgres_repository, get_top_likes as query_top_likes,
}
use be_in_crypto_social_api.Infrastructure.Redis.Keys.{data_, format_lead_key}
use be_in_crypto_social_api.Infrastructure.Redis.Leaderboard.{
  StringLaws, get-set_leaderboard, get_leaderboard-none,
}
use be_in_crypto_social_api.Infrastructure.Redis.Repository.{
  RedisLikeRepository, redis_repository, set_leaderboard_with_canary,
}
use be_in_crypto_social_api.Infrastructure.Wiring.{World, db_on, cache_on, service}

window_since-later :
    (window : Text) (now now' : DateTime) (since : Option DateTime)
    → window_since window now ≡ ok since
    → (since' : Option DateTime) × (window_since window now' ≡ ok since')
unfolding window_since
window_since-later window now now' since valid = elim (Result-cases (window_since window now')) [
  | inl ok_since ↦ ok_since
  | inr (e, refused) ↦ absurd (ground (arith, valid, refused))
]

canary_ttl-positive : (window : Text) → (n : ℕ) × (canary_ttl window ≡ suc n)
canary_ttl-positive window =
    elim (Text-discrete window (codes "24h"))
      as (λ d. (n : ℕ) × ((if holds d then 30 else 300) ≡ suc n)) [
        | yes _ ↦ (29, refl)
        | no _ ↦ (299, refl)
      ]

module _ {R : Type 0} (server : Server) (repo : RedisLikeRepository R)
    (laws : StringLaws repo.redis) (extern_validator : ExternalValidator (World R))
    (now : World R → DateTime) (until_granted : Mutex → State (World R) → State (World R))
    (t : ContentType) (window : Text) where
  abbrev svc : LikeService (World R)
  svc = service server repo extern_validator now until_granted

  abbrev response : List TopLikeItem → TopLikesResponse
  response rows = record { window = window; content_type = t; items = rows }

  module _ (s : State (World R)) (since : Option DateTime) (rows : List TopLikeItem) (json : Text)
      (up : s.world.redis.conn ≡ true) (valid : window_since window (now s.world) ≡ ok since)
      (written : repo.items_to_json rows ≡ some json)
      (read : repo.items_from_json json ≡ some rows) where
    -- the state after a write of the leaderboard for `suc ttl` seconds
    abbrev stored : ℕ → PgPool → State (World R)
    stored ttl pg = record s {
      world = record {
        pg = pg;
        redis = (set_leaderboard_with_canary repo window t rows (suc ttl) s.world.redis).1;
      };
    }

    served :
        (ttl : ℕ) (pg : PgPool) (limit : ℤ)
        → get_top_likes svc t window limit (stored ttl pg) ≡ (ok (response rows), stored ttl pg)
    unfolding service cache_on redis_repository
    served ttl pg limit =
        let (since', valid') =
          window_since-later window (now s.world) (now (stored ttl pg).world) since valid in
        let kept =
          get-set_leaderboard repo laws window t rows json ttl s.world.redis up written read in
        fresh_hit svc t window (stored ttl pg) since' valid' rows (stored ttl pg).world limit
          (rw kept.1 refl)

    -- When the refresh task of a stale leaderboard has run, every request until the canary expires is
    -- answered with the rows that the database gave to the task, whatever limit it asks for; it asks
    -- the database nothing and spawns no task.
    pub refresh-served :
        (since₁ : Option DateTime) (limit limit' : ℤ) (pg' : PgPool)
        → query_top_likes server (as_opt t) since₁ limit s.world.pg ≡ (ok rows, pg')
        → let s' = (run_task svc (refresh window t since₁ limit) s).1 in
          get_top_likes svc t window limit' s' ≡ (ok (response rows), s')
    unfolding service db_on cache_on redis_repository postgres_repository run_task store_refreshed
    refresh-served since₁ limit limit' pg' asked =
        let (ttl, positive) = canary_ttl-positive window in
        rw (asked, positive) (served ttl pg' limit')

    -- The key of a cached leaderboard does not tell the limit: where none is cached, a request is
    -- answered with the rows up to its own limit, and then every other request of the window and
    -- content type with these same rows, whatever limit it asks for, until the canary expires.
    pub first_limit-served :
        (limit limit' : ℤ) (pg' : PgPool)
        → laws.value s.world.redis.server (format_lead_key data_ window t) ≡ none
        → query_top_likes server (as_opt t) since (min_ℕ limit 50) s.world.pg ≡ (ok rows, pg')
        → let (r, s') = get_top_likes svc t window limit s in
          (r ≡ ok (response rows))
          × (get_top_likes svc t window limit' s' ≡ (ok (response rows), s'))
    unfolding service db_on cache_on redis_repository postgres_repository
    first_limit-served limit limit' pg' missing asked =
        let (fresh, none_cached) =
          get_leaderboard-none repo laws window t s.world.redis up missing in
        let first =
          miss svc t window s since valid rows s.world limit fresh rows
            (record s.world { pg = pg' }) cache_miss (inl (rw none_cached refl)) (rw asked refl) in
        rw first (refl, served 29 pg' limit')
