-- ===== src/Application/LikeService/Counts.antt =====
-- `get_cache_like_count`, `get_like_count_with_fallback` and `get_like_count`.
use be_in_crypto_social_api.Prelude.{ℕ, Option, none, some}
use be_in_crypto_social_api.Prelude.Exec.{
  Result, ok, err, pure, throw, modify, attempt, ◌>>=◌, ◌>>◌,
}
use be_in_crypto_social_api.Domain.Errors.{DomainError, cache_miss}
use be_in_crypto_social_api.Domain.Model.{ContentId, ContentType}
use be_in_crypto_social_api.Domain.Ports.{Call}
use be_in_crypto_social_api.Api.Dto.{CountResponse}
use be_in_crypto_social_api.Application.LikeService.Service.{
  LikeService, State, on_world, unlock, entry_lock, format_lock_key,
}

abbrev or_cache_miss : {W : Type 0} → Option ℕ → Call W ℕ
or_cache_miss (some count) = pure count
or_cache_miss none = throw cache_miss

module _ {W : Type 0} (svc : LikeService W) (c_type : ContentType) (c_id : ContentId) where
  unfoldable pub get_cache_like_count : Call (State W) ℕ
  get_cache_like_count = do
    count ← on_world (svc.cache_repo.get_count c_type c_id)
    or_cache_miss count

  -- what follows a second miss: the read of the database and the cache refresh
  unfoldable pub fetch_from_db : Call (State W) ℕ
  fetch_from_db = do
    count ← on_world (svc.db_repo.get_likes_count c_type c_id)
    _ ← attempt (on_world (svc.cache_repo.set_value c_type c_id count))
    modify (unlock (format_lock_key svc c_type c_id))
    pure count

  abbrev double_check : Result DomainError ℕ → Call (State W) ℕ
  double_check (ok count) = do modify (unlock (format_lock_key svc c_type c_id)); pure count
  double_check (err _) = fetch_from_db

  -- what follows a first miss: the flight lock, its wait, and the second look into the cache
  unfoldable pub fetch_locked : Call (State W) ℕ
  unfolding fetch_from_db
  fetch_locked s =
      let (mutex, s') = entry_lock (format_lock_key svc c_type c_id) s in
      (do
        modify (svc.until_granted mutex)
        cached ← attempt get_cache_like_count
        double_check cached)
        s'

  abbrev or_fetch : Result DomainError ℕ → Call (State W) ℕ
  or_fetch (ok count) = pure count
  or_fetch (err _) = fetch_locked

  unfoldable pub get_like_count_with_fallback : Call (State W) ℕ
  get_like_count_with_fallback = do cached ← attempt get_cache_like_count; or_fetch cached

  unfoldable pub get_like_count : Call (State W) CountResponse
  get_like_count = do
    count ← get_like_count_with_fallback
    pure (record {
      content_type = c_type.as_str;
      content_id = svc.uuid_text c_id.uuid;
      count = count;
    })
