-- ===== src/Application/LikeService/Interruption.antt =====
-- `get_like_count_with_fallback` of social_api/src/application/like_service.rs while other requests
-- run between its read of the database and its write of the cache, which no lock covers.
use be_in_crypto_social_api.Prelude.{ℕ, ◌+◌, ◌^◌, ◌<◌, ◌≡◌, refl, ◌∙◌, none, true, or_zero, arith}
use be_in_crypto_social_api.Prelude.Exec.{ok, pure, modify, attempt, ◌>>=◌, ◌>>◌}
use be_in_crypto_social_api.Domain.Model.{ContentId, ContentType, Like}
use be_in_crypto_social_api.Domain.Ports.{Call}
use be_in_crypto_social_api.Application.Commands.{AddLikeCommand}
use be_in_crypto_social_api.Application.LikeService.Service.{
  LikeService, State, on_world, unlock, format_lock_key, send_sse_event,
}
use be_in_crypto_social_api.Application.LikeService.Counts.{
  fetch_from_db, get_like_count_with_fallback,
}
use be_in_crypto_social_api.Application.LikeService.Likes.{count_after_save, add_like}
use be_in_crypto_social_api.Application.LikeService.Backend.{Backend}
use be_in_crypto_social_api.Application.LikeService.Fallback.{fallback-hit}
use be_in_crypto_social_api.Application.LikeService.Drift.{Validates, add_like-online}

module _ {W : Type 0} (svc : LikeService W) (c_type : ContentType) (c_id : ContentId) where
  -- the end of `get_like_count_with_fallback`, where `others` is what the other requests do after
  -- the database has answered and before the cache is written
  unfoldable pub fetch_while : (State W → State W) → Call (State W) ℕ
  fetch_while others = do
    count ← on_world (svc.db_repo.get_likes_count c_type c_id)
    modify others
    _ ← attempt (on_world (svc.cache_repo.set_value c_type c_id count))
    modify (unlock (format_lock_key svc c_type c_id))
    pure count

  -- If the others do nothing, it is `fetch_from_db`.
  fetch_while-alone : (s : State W) → fetch_while (λ s'. s') s ≡ fetch_from_db svc c_type c_id s
  unfolding fetch_while fetch_from_db
  fetch_while-alone s = refl

module _ {W : Type 0} (svc : LikeService W) (b : Backend svc) (cmd : AddLikeCommand)
    (s : State W) where
  open b use {view, cache, db}
  open cmd use {content_type, content_id}

  -- the repositories after a new like
  added :
      Validates svc b content_type content_id s.world
      → view.DbReady s.world
      → view.liked s.world cmd.user_id content_type content_id ≡ none
      → view.cache_up s.world ≡ true
      → or_zero (view.cached s.world content_type content_id) + 1 < 2 ^ 63
      → view.cache_up (add_like svc cmd s).1.world ≡ true
  unfolding add_like count_after_save send_sse_event
  added validates ready new up room =
      let like : Like = record {
        id = 0;
        user_id = cmd.user_id;
        content_type = content_type;
        content_id = content_id;
        created_at = svc.now s.world;
      } in
      let saved = db.save_new like s.world ready new in
      let same = saved.4 in
      let counted =
        cache.increment_up content_type content_id (svc.db_repo.save like s.world).1
          (same.cache_up ∙ up) (rw same.cached room) in
      ground (arith, validates, saved.0, counted.0, counted.2)

  -- A like that is added between the two accesses is lost to the cache: the count that was read
  -- before it overwrites the counter that the like has incremented, and is returned by every
  -- request that finds it cached, while the database counts one more.
  pub lost_like :
      Validates svc b content_type content_id s.world
      → view.DbReady s.world
      → view.liked s.world cmd.user_id content_type content_id ≡ none
      → view.cache_up s.world ≡ true
      → or_zero (view.cached s.world content_type content_id) + 1 < 2 ^ 63
      → let n = view.total s.world content_type content_id in
        let (r, s') = fetch_while svc content_type content_id (λ s₁. (add_like svc cmd s₁).1) s in
        (r ≡ ok n)
        × (view.total s'.world content_type content_id ≡ n + 1)
        × (get_like_count_with_fallback svc content_type content_id s' ≡ (ok n, s'))
  unfolding fetch_while
  lost_like validates ready new up room =
      let still = added validates ready new up room in
      let (answered, counted, stored) = add_like-online svc b cmd s validates ready new up room in
      let s₁ = (add_like svc cmd s).1 in
      let (cached, up', same) =
        cache.set_value_up content_type content_id (view.total s.world content_type content_id)
          s₁.world still in
      rw (db.get_likes_count_up content_type content_id s.world ready) (
        refl,
        same.total content_type content_id ∙ stored,
        fallback-hit svc b content_type content_id _ _ up' cached,
      )
