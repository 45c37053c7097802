-- ===== src/Application/LikeService/Leaderboard.antt =====
-- `get_top_likes`: the leaderboard, stale while it is refreshed. Times are nanoseconds; the clock
-- stands more than 30 days after the epoch, so `-` does not stop at 0.
pub mod Staleness
use be_in_crypto_social_api.Prelude.{
  ℕ, ◌-◌, ◌*◌, ℤ, min_ℕ, Text, Text-discrete, codes, List, Option, none, some, Bool, true, false,
  holds, if◌then◌else◌,
}
use be_in_crypto_social_api.Prelude.Exec.{
  Result, ok, err, Exec, unwrap_or, pure, gets, lift, modify, attempt, ◌>>=◌, ◌>>◌,
}
use be_in_crypto_social_api.Domain.Errors.{DomainError, validation_error}
use be_in_crypto_social_api.Domain.Model.{DateTime, ContentType, as_opt}
use be_in_crypto_social_api.Domain.Ports.{LikeDbRepository, LikeCacheRepository, Call}
use be_in_crypto_social_api.Api.Dto.{TopLikeItem, TopLikesResponse}
use be_in_crypto_social_api.Application.LikeService.Service.{
  LikeService, State, refresh, on_world, spawn,
}

abbrev pub hour : ℕ
hour = 3600 * 1000000000

-- the `match window_str.as_str()`
unfoldable pub window_since : Text → DateTime → Result DomainError (Option DateTime)
window_since window now =
    if holds (Text-discrete window (codes "24h"))
    then ok (some (now - 24 * hour))
    else if holds (Text-discrete window (codes "7d"))
    then ok (some (now - 7 * 24 * hour))
    else if holds (Text-discrete window (codes "30d"))
    then ok (some (now - 30 * 24 * hour))
    else if holds (Text-discrete window (codes "all"))
    then ok none
    else err (validation_error (codes "Invalid window"))

module _ {W : Type 0} (svc : LikeService W) (content_type : ContentType) (window_str : Text) where
  abbrev response : List TopLikeItem → TopLikesResponse
  response items = record { window = window_str; content_type = content_type; items = items }

  -- the spawn of a background refresh, where the lock was acquired
  abbrev spawn_if : Bool → Option DateTime → ℤ → State W → State W
  spawn_if true since limit s = spawn (refresh window_str content_type since limit) s
  spawn_if false since limit s = s

  -- the `if !is_fresh`
  unfoldable pub refresh_stale : Bool → Option DateTime → ℤ → Call (State W) (Unit {0})
  refresh_stale true since limit = pure tt
  refresh_stale false since limit = do
    acquired ← attempt (on_world (svc.cache_repo.acquire_refresh_lock window_str content_type))
    modify (spawn_if (unwrap_or acquired false) since limit)

  -- what follows the read of the cache
  unfoldable pub serve :
      Option (List TopLikeItem) × Bool → Option DateTime → ℤ → Call (State W) TopLikesResponse
  unfolding refresh_stale
  serve (some items, is_fresh) since limit = do
    refresh_stale is_fresh since limit
    pure (response items)
  serve (none, is_fresh) since limit = do
    items ← on_world (svc.db_repo.get_top_likes (as_opt content_type) since limit)
    _ ←
        attempt
          (on_world (svc.cache_repo.set_leaderboard_with_canary window_str content_type items 30))
    pure (response items)

  unfoldable pub get_top_likes : ℤ → Call (State W) TopLikesResponse
  get_top_likes limit = do
    now ← gets (λ s. svc.now s.world)
    since ← lift (window_since window_str now)
    cached ← attempt (on_world (svc.cache_repo.get_leaderboard_with_canary window_str content_type))
    serve (unwrap_or cached (none, false)) since (min_ℕ limit 50)
