-- ===== src/Application/LikeService/Drift.antt =====
-- Where the cached count of an item agrees with the database after a like or an unlike, and where
-- it drifts from it. The content is valid, the database answers, and no other task acts meanwhile.
use be_in_crypto_social_api.Prelude.{
  ℕ, suc, ◌+◌, ◌-◌, ◌^◌, ◌<◌, ◌≡◌, ◌≢◌, ap, sym, ◌∙◌, none, some, true, false, or_zero, arith,
}
use be_in_crypto_social_api.Prelude.Exec.{ok}
use be_in_crypto_social_api.Domain.Model.{DateTime, ContentId, ContentType, UserId, Like}
use be_in_crypto_social_api.Application.Commands.{AddLikeCommand}
use be_in_crypto_social_api.Application.LikeService.Service.{LikeService, State, send_sse_event}
use be_in_crypto_social_api.Application.LikeService.Likes.{
  count_after_save, add_like, decrement_count, finish_remove, remove_like,
}
use be_in_crypto_social_api.Application.LikeService.Backend.{Backend}
use be_in_crypto_social_api.Application.LikeService.Fallback.{fallback-hit, fallback-miss}

module _ {W : Type 0} (svc : LikeService W) (b : Backend svc) where
  open b use {view, cache, db}

  -- the content service accepts the content, and nothing else happens
  abbrev pub Validates : ContentType → ContentId → W → Type 0
  Validates t i w = svc.extern_repo.validate_content t i w ≡ (ok i.uuid, w)

  abbrev like_of : AddLikeCommand → W → Like
  like_of cmd w = record {
    id = 0;
    user_id = cmd.user_id;
    content_type = cmd.content_type;
    content_id = cmd.content_id;
    created_at = svc.now w;
  }

  module _ (cmd : AddLikeCommand) (s : State W)
      (validates : Validates cmd.content_type cmd.content_id s.world) (ready : view.DbReady s.world)
      (new : view.liked s.world cmd.user_id cmd.content_type cmd.content_id ≡ none) where
    open cmd use {content_type, content_id}

    -- A new like with the cache up: the count returned and cached is one more than the count that
    -- was cached, or 1 if none was, whatever the database says; the database counts one more.
    pub add_like-online :
        view.cache_up s.world ≡ true
        → or_zero (view.cached s.world content_type content_id) + 1 < 2 ^ 63
        → let (r, s') = add_like svc cmd s in
          let n = or_zero (view.cached s.world content_type content_id) + 1 in
          (r
            ≡ ok (record {
              liked = true;
              already_existed = false;
              count = n;
              liked_at = svc.now s.world;
            }))
          × (view.cached s'.world content_type content_id ≡ some n)
          × (view.total s'.world content_type content_id
              ≡ view.total s.world content_type content_id + 1)
    unfolding add_like count_after_save send_sse_event
    add_like-online up room =
        let saved = db.save_new (like_of cmd s.world) s.world ready new in
        let w₁ = (svc.db_repo.save (like_of cmd s.world) s.world).1 in
        let same = saved.4 in
        let counted =
          cache.increment_up content_type content_id w₁ (same.cache_up ∙ up)
            (rw same.cached room) in
        ground (
          arith,
          validates,
          saved.0,
          saved.1,
          counted,
          same.cached content_type content_id,
          counted.3.total content_type content_id,
        )

  -- A second like of one user for one content, with a cached count, changes neither store, and
  -- returns the cached count and the time of the first like.
  pub add_like-again :
      (cmd : AddLikeCommand) (s : State W) (d : DateTime) (n : ℕ)
      → Validates cmd.content_type cmd.content_id s.world
      → view.DbReady s.world
      → view.cache_up s.world ≡ true
      → view.liked s.world cmd.user_id cmd.content_type cmd.content_id ≡ some d
      → view.cached s.world cmd.content_type cmd.content_id ≡ some n
      → let (r, s') = add_like svc cmd s in
        (r ≡ ok (record { liked = true; already_existed = true; count = n; liked_at = d }))
        × (s'.world ≡ s.world)
  unfolding add_like count_after_save send_sse_event
  add_like-again cmd s d n validates ready up old hit =
      let found = db.get_like_up cmd.user_id cmd.content_type cmd.content_id s.world d ready old in
      ground (
        arith,
        validates,
        db.save_existing (like_of cmd s.world) s.world d ready old,
        found.1,
        found.2,
        fallback-hit svc b cmd.content_type cmd.content_id s n up hit,
      )

  module _ (u : UserId) (t : ContentType) (i : ContentId) (s : State W)
      (validates : Validates t i s.world) (ready : view.DbReady s.world)
      (up : view.cache_up s.world ≡ true) where
    -- An unlike of what the user has liked, with no cached count: the count is read from the
    -- database after the row is gone, and then decremented once more. If other likes are left, the
    -- count returned and cached is one less than the database's.
    pub remove_like-cold :
        (d : DateTime)
        → view.liked s.world u t i ≡ some d
        → view.cached s.world t i ≡ none
        → view.total s.world t i ≢ 1
        → let (r, s') = remove_like svc u t i s in
          let n = view.total s'.world t i in
          (r ≡ ok (record { liked = false; was_liked = true; count = n - 1 }))
          × (view.cached s'.world t i ≡ some (n - 1))
          × (n ≢ 0)
          × (view.total s.world t i ≡ n + 1)
    unfolding remove_like finish_remove decrement_count send_sse_event
    remove_like-cold d old miss many =
        let removed = db.remove_existing u t i s.world d ready old in
        let w₁ = (svc.db_repo.remove u t i s.world).1 in
        let same = removed.4 in
        let n = view.total w₁ t i in
        let s₁ = record s { world = w₁ } in
        let fetched =
          fallback-miss svc b t i s₁ (same.cache_up ∙ up) removed.3 (same.cached t i ∙ miss) in
        let stored = cache.set_value_up t i n w₁ (same.cache_up ∙ up) in
        let w₂ = (svc.cache_repo.set_value t i n w₁).1 in
        let some_left : suc (n - 1) ≡ n = omega (arith, removed.1) in
        let counted =
          cache.decrement_up t i w₂ (n - 1) stored.1
            (stored.0 ∙ ap (λ (k : ℕ). some k) (sym some_left)) in
        ground (
          arith,
          validates,
          removed.0,
          removed.1,
          fetched,
          counted,
          counted.3.total t i,
          stored.2.total t i,
        )

    -- An unlike of what the user has not liked returns the cached count, changes neither store and
    -- publishes nothing.
    pub remove_like-absent :
        (n : ℕ)
        → view.liked s.world u t i ≡ none
        → view.cached s.world t i ≡ some n
        → let (r, s') = remove_like svc u t i s in
          (r ≡ ok (record { liked = false; was_liked = false; count = n }))
          × (s'.world ≡ s.world)
          × (s'.spawned ≡ s.spawned)
    unfolding remove_like finish_remove
    remove_like-absent n new hit = ground (
      arith,
      validates,
      db.remove_absent u t i s.world ready new,
      fallback-hit svc b t i s n up hit,
    )
