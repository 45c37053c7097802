-- ===== src/Application/LikeService/Leaderboard/Staleness.antt =====
-- Which store answers a request for the leaderboard.
use be_in_crypto_social_api.Prelude.{
  ℤ, min_ℕ, Text, ◌≡◌, List, Option, none, some, Bool, true, ◌⊎◌, inl, inr, arith,
}
use be_in_crypto_social_api.Prelude.Exec.{ok, err}
use be_in_crypto_social_api.Domain.Errors.{DomainError}
use be_in_crypto_social_api.Domain.Model.{DateTime, ContentType, as_opt}
use be_in_crypto_social_api.Api.Dto.{TopLikeItem}
use be_in_crypto_social_api.Application.LikeService.Service.{LikeService, State}
use be_in_crypto_social_api.Application.LikeService.Leaderboard.{
  window_since, refresh_stale, serve, get_top_likes,
}

module _ {W : Type 0} (svc : LikeService W) (t : ContentType) (window : Text) (s : State W) where
  module _ (since : Option DateTime) (valid : window_since window (svc.now s.world) ≡ ok since)
      (items : List TopLikeItem) (w₁ : W) where
    -- A fresh leaderboard is returned as it is cached, whatever limit is asked for.
    pub fresh_hit :
        (limit : ℤ)
        → svc.cache_repo.get_leaderboard_with_canary window t s.world ≡ (ok (some items, true), w₁)
        → get_top_likes svc t window limit s ≡ (
          ok (record { window = window; content_type = t; items = items }),
          record s { world = w₁ },
        )
    unfolding get_top_likes serve refresh_stale
    fresh_hit limit hit = ground (arith, valid, hit)

    -- Without a cached leaderboard, or with a cache that fails, the database is asked with the limit
    -- capped at 50, its rows are returned, and they are offered to the cache for 30 seconds.
    pub miss :
        (limit : ℤ) (fresh : Bool) (rows : List TopLikeItem) (w₂ : W) (e : DomainError)
        → (svc.cache_repo.get_leaderboard_with_canary window t s.world ≡ (ok (none, fresh), w₁))
          ⊎ (svc.cache_repo.get_leaderboard_with_canary window t s.world ≡ (err e, w₁))
        → svc.db_repo.get_top_likes (as_opt t) since (min_ℕ limit 50) w₁ ≡ (ok rows, w₂)
        → get_top_likes svc t window limit s ≡ (
          ok (record { window = window; content_type = t; items = rows }),
          record s { world = (svc.cache_repo.set_leaderboard_with_canary window t rows 30 w₂).1 },
        )
    unfolding get_top_likes serve
    miss limit fresh rows w₂ e (inl hit) asked = ground (arith, valid, hit, asked)
    miss limit fresh rows w₂ e (inr hit) asked = ground (arith, valid, hit, asked)
