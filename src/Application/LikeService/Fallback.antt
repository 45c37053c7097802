-- ===== src/Application/LikeService/Fallback.antt =====
-- What `get_like_count_with_fallback` returns: the cached count if there is one, and else the
-- database's, which it also caches.
use be_in_crypto_social_api.Prelude.{
  ℕ, Text, ◌≡◌, refl, ap, sym, subst, ◌∙◌, none, some, true, false, arith,
}
use be_in_crypto_social_api.Prelude.Exec.{Result, ok, err}
use be_in_crypto_social_api.Domain.Errors.{DomainError, cache_miss, cache_offline}
use be_in_crypto_social_api.Domain.Model.{ContentId, ContentType}
use be_in_crypto_social_api.Application.LikeService.Service.{
  LikeService, State, entry_lock, format_lock_key,
}
use be_in_crypto_social_api.Application.LikeService.Counts.{
  get_cache_like_count, fetch_from_db, fetch_locked, get_like_count_with_fallback,
}
use be_in_crypto_social_api.Application.LikeService.Backend.{Backend}

module _ {W : Type 0} (svc : LikeService W) (b : Backend svc) (t : ContentType)
    (i : ContentId) where
  open b use {view, cache, db, quiet}

  pub fallback-hit :
      (s : State W) (n : ℕ)
      → view.cache_up s.world ≡ true
      → view.cached s.world t i ≡ some n
      → get_like_count_with_fallback svc t i s ≡ (ok n, s)
  unfolding get_like_count_with_fallback get_cache_like_count
  fallback-hit s n up hit = rw (cache.get_count_up t i s.world up, hit) refl

  entry_lock-world :
      (key : Text) (s : State W)
      → ((entry_lock key s).1.world ≡ s.world) × ((entry_lock key s).1.spawned ≡ s.spawned)
  unfolding entry_lock
  entry_lock-world key s = ground arith

  look-miss :
      (s : State W)
      → view.cache_up s.world ≡ true
      → view.cached s.world t i ≡ none
      → get_cache_like_count svc t i s ≡ (err cache_miss, s)
  unfolding get_cache_like_count
  look-miss s up miss = rw (cache.get_count_up t i s.world up, miss) refl

  look-down :
      (s : State W)
      → view.cache_up s.world ≡ false
      → get_cache_like_count svc t i s ≡ (err cache_offline, s)
  unfolding get_cache_like_count
  look-down s down = rw (cache.get_count_down t i s.world down) refl

  fetch_lem :
      (s : State W)
      → view.DbReady s.world
      → let (r, s') = fetch_from_db svc t i s in
        (r ≡ ok (view.total s.world t i))
        × (s'.world ≡ (svc.cache_repo.set_value t i (view.total s.world t i) s.world).1)
        × (s'.spawned ≡ s.spawned)
  unfolding fetch_from_db
  fetch_lem s dup = rw (db.get_likes_count_up t i s.world dup) (refl, refl, refl)

  -- A second look that fails as the first one did is followed by the read of the database.
  locked_lem :
      (s : State W) (e : DomainError)
      → ((s' : State W) → s'.world ≡ s.world → get_cache_like_count svc t i s' ≡ (err e, s'))
      → view.DbReady s.world
      → let (r, s') = get_like_count_with_fallback svc t i s in
        (r ≡ ok (view.total s.world t i))
        × (s'.world ≡ (svc.cache_repo.set_value t i (view.total s.world t i) s.world).1)
        × (s'.spawned ≡ s.spawned)
  unfolding get_like_count_with_fallback fetch_locked
  locked_lem s e fails dup =
      let key = format_lock_key svc t i in
      let kept = entry_lock-world key s in
      let s₁ = (entry_lock key s).1 in
      let fetched = fetch_lem s₁ (subst view.DbReady (sym kept.0) dup) in
      rw (fails s refl, quiet, fails s₁ kept.0)
        (
          fetched.0 ∙ ap {B = Result DomainError ℕ} (λ w. ok (view.total w t i)) kept.0,
          fetched.1 ∙ ap (λ (w : W). (svc.cache_repo.set_value t i (view.total w t i) w).1) kept.0,
          fetched.2 ∙ kept.1,
        )

  pub fallback-miss :
      (s : State W)
      → view.cache_up s.world ≡ true
      → view.DbReady s.world
      → view.cached s.world t i ≡ none
      → let (r, s') = get_like_count_with_fallback svc t i s in
        (r ≡ ok (view.total s.world t i))
        × (s'.world ≡ (svc.cache_repo.set_value t i (view.total s.world t i) s.world).1)
        × (s'.spawned ≡ s.spawned)
  fallback-miss s up dup miss =
      locked_lem s cache_miss (λ s' e. look-miss s' (rw e up) (rw e miss)) dup

  pub fallback-offline :
      (s : State W)
      → view.cache_up s.world ≡ false
      → view.DbReady s.world
      → let (r, s') = get_like_count_with_fallback svc t i s in
        (r ≡ ok (view.total s.world t i)) × (s'.world ≡ s.world) × (s'.spawned ≡ s.spawned)
  fallback-offline s down dup =
      let (r, w, spawned) = locked_lem s cache_offline (λ s' e. look-down s' (rw e down)) dup in
      (
        r,
        w
            ∙ ap (λ (p : Result DomainError (Unit {0}) × W). p.1)
                (cache.set_value_down t i (view.total s.world t i) s.world down),
        spawned,
      )
