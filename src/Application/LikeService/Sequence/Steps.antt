-- ===== src/Application/LikeService/Sequence/Steps.antt =====
-- One like or unlike against the ideal.
use be_in_crypto_social_api.Prelude.{
  ℕ, suc, ◌+◌, ◌-◌, ◌^◌, ◌<◌, ◌≡◌, ◌≢◌, ap, refl, sym, ◌∙◌, Option, none, some, inl, inr, or_zero,
  if_pos, if_neg, arith,
}
use be_in_crypto_social_api.Prelude.Exec.{ok, err}
use be_in_crypto_social_api.Domain.Errors.{cache_offline}
use be_in_crypto_social_api.Domain.Model.{
  to_timestamptz, DateTime, ContentId, ContentType, UserId, UserId-discrete, Like,
}
use be_in_crypto_social_api.Application.LikeService.Service.{LikeService, State, send_sse_event}
use be_in_crypto_social_api.Application.LikeService.Likes.{
  count_after_save, add_like, decrement_count, finish_remove, remove_like,
}
use be_in_crypto_social_api.Application.LikeService.Counts.{get_like_count_with_fallback}
use be_in_crypto_social_api.Application.LikeService.Backend.{Backend}
use be_in_crypto_social_api.Application.LikeService.Fallback.{fallback-hit, fallback-offline}
use be_in_crypto_social_api.Application.LikeService.Drift.{Validates}
use be_in_crypto_social_api.Application.LikeService.Sequence.{
  Ideal, update, ideal_like, ideal_unlike, Tracks,
}

update-agree :
    (u : UserId) (d : Option DateTime) (old new f : UserId → Option DateTime)
    → new u ≡ d
    → ((u' : UserId) → u' ≢ u → new u' ≡ old u')
    → ((u' : UserId) → old u' ≡ f u')
    → (u' : UserId) → new u' ≡ update u d f u'
unfolding update
update-agree u d old new f own others agree u' = elim (UserId-discrete u' u) [
  | yes e ↦ ap new e ∙ own ∙ sym (if_pos (UserId-discrete u' u) e d (f u'))
  | no ne ↦ others u' ne ∙ agree u' ∙ sym (if_neg (UserId-discrete u' u) ne d (f u'))
]

module _ {W : Type 0} (svc : LikeService W) (b : Backend svc) (t : ContentType)
    (i : ContentId) where
  open b use {view, cache, db}

  -- the count of an unlike, by an answered decrement or from the database
  decrement_count-up :
      (u : UserId) (n : ℕ) (s : State W)
      → (svc.cache_repo.decrement t i s.world).0 ≡ ok n
      → decrement_count svc u t i (suc n) s
        ≡ (ok n, record s { world = (svc.cache_repo.decrement t i s.world).1 })
  unfolding decrement_count
  decrement_count-up u n s answered = ground arith

  decrement_count-down :
      (u : UserId) (n : ℕ) (s : State W) (w : W)
      → s.world ≡ w
      → svc.cache_repo.decrement t i w ≡ (err cache_offline, w)
      → svc.db_repo.get_likes_count t i w ≡ (ok n, w)
      → decrement_count svc u t i n s ≡ (ok n, record s { world = w })
  unfolding decrement_count
  decrement_count-down u n s w same lost read = ground arith

  module _ (u : UserId) (s : State W) (m : Ideal) (validates : Validates svc b t i s.world)
      (tracks : Tracks svc b t i s.world m) where
    abbrev row : Like
    row = record {
      id = 0;
      user_id = u;
      content_type = t;
      content_id = i;
      created_at = svc.now s.world;
    }

    saved-likes :
        view.liked s.world u t i ≡ none
        → (u' : UserId)
        → view.liked (svc.db_repo.save row s.world).1 u' t i
          ≡ update u (some (to_timestamptz (svc.now s.world))) m.liked u'
    saved-likes new =
        let saved = db.save_new row s.world tracks.ready new in
        update-agree u (some (to_timestamptz (svc.now s.world))) (λ u'. view.liked s.world u' t i)
          (λ u'. view.liked (svc.db_repo.save row s.world).1 u' t i) m.liked saved.2
          (λ u' ne. db.save_others row s.world u' t i tracks.ready ne) tracks.likes

    pub like_new :
        m.count + 1 < 2 ^ 63
        → m.liked u ≡ none
        → let (r, s') = add_like svc (record { user_id = u; content_type = t; content_id = i }) s in
          let (answer, m') = ideal_like u (svc.now s.world) none m in
          (r ≡ ok answer) × Tracks svc b t i s'.world m'
    unfolding add_like count_after_save send_sse_event
    like_new room fresh =
        let new = tracks.likes u ∙ fresh in
        let saved = db.save_new row s.world tracks.ready new in
        let w₁ = (svc.db_repo.save row s.world).1 in
        let same = saved.4 in
        let count = saved.1 ∙ ap (λ (n : ℕ). n + 1) tracks.counts in
        elim tracks.cache [
          | inl (up, hit) ↦
              let shown = same.cached t i ∙ hit in
              let counted = cache.increment_up t i w₁ (same.cache_up ∙ up) (rw shown room) in
              let n = ap or_zero shown in
              rw (validates, saved.0, counted.0, shown)
                (
                  refl,
                  record {
                    ready = counted.3.ready saved.3;
                    counts = counted.3.total t i ∙ count;
                    likes = λ u'. counted.3.liked u' t i ∙ saved-likes new u';
                    cache = inl (counted.2, counted.1 ∙ ap (λ (n : ℕ). some (n + 1)) n);
                  },
                )
          | inr down ↦
              let off = same.cache_up ∙ down in
              rw
                (
                  validates,
                  saved.0,
                  cache.increment_down t i w₁ off,
                  db.get_likes_count_up t i w₁ saved.3,
                  count,
                )
                (
                  refl,
                  record {
                    ready = saved.3;
                    counts = count;
                    likes = saved-likes new;
                    cache = inr off;
                  },
                )
        ]

    pub like_again :
        (d : DateTime)
        → m.liked u ≡ some d
        → let (r, s') = add_like svc (record { user_id = u; content_type = t; content_id = i }) s in
          let (answer, m') = ideal_like u (svc.now s.world) (some d) m in
          (r ≡ ok answer) × Tracks svc b t i s'.world m'
    unfolding add_like count_after_save send_sse_event
    like_again d liked =
        let old = tracks.likes u ∙ liked in
        let (l, found, at) = db.get_like_up u t i s.world d tracks.ready old in
        let known = db.save_existing row s.world d tracks.ready old in
        elim tracks.cache [
          | inl (up, hit) ↦
              rw (validates, known, fallback-hit svc b t i s m.count up hit, found, at)
                (refl, tracks)
          | inr down ↦
              let (count, world, spawned) = fallback-offline svc b t i s down tracks.ready in
              rw (validates, known, count, world, found, at, tracks.counts) (refl, tracks)
        ]

    pub unlike_absent :
        m.liked u ≡ none
        → let (r, s') = remove_like svc u t i s in
          let (answer, m') = ideal_unlike u none m in (r ≡ ok answer) × Tracks svc b t i s'.world m'
    unfolding remove_like finish_remove
    unlike_absent liked =
        let absent = db.remove_absent u t i s.world tracks.ready (tracks.likes u ∙ liked) in
        elim tracks.cache [
          | inl (up, hit) ↦
              rw (validates, absent, fallback-hit svc b t i s m.count up hit) (refl, tracks)
          | inr down ↦
              let (count, world, spawned) = fallback-offline svc b t i s down tracks.ready in
              rw (validates, absent, count, world, tracks.counts) (refl, tracks)
        ]

    pub unlike_liked :
        (d : DateTime)
        → m.liked u ≡ some d
        → let (r, s') = remove_like svc u t i s in
          let (answer, m') = ideal_unlike u (some d) m in
          (r ≡ ok answer) × Tracks svc b t i s'.world m'
    unfolding remove_like finish_remove send_sse_event
    unlike_liked d liked =
        let removed = db.remove_existing u t i s.world d tracks.ready (tracks.likes u ∙ liked) in
        let w₁ = (svc.db_repo.remove u t i s.world).1 in
        let s₁ = record s { world = w₁ } in
        let same = removed.4 in
        let n = view.total w₁ t i in
        let one_less : m.count ≡ suc n = omega (arith, removed.1, tracks.counts) in
        let left : m.count - 1 ≡ n = omega (arith, one_less) in
        let gone =
          update-agree u none (λ u'. view.liked s.world u' t i) (λ u'. view.liked w₁ u' t i) m.liked
            removed.2 (λ u' ne. db.remove_others u u' t t i i s.world tracks.ready ne)
            tracks.likes in
        elim tracks.cache [
          | inl (up, hit) ↦
              let up₁ = same.cache_up ∙ up in
              let shown = same.cached t i ∙ hit ∙ ap (λ (k : ℕ). some k) one_less in
              let counted = cache.decrement_up t i w₁ n up₁ shown in
              rw
                (
                  validates,
                  removed.0,
                  fallback-hit svc b t i s₁ (suc n) up₁ shown,
                  decrement_count-up u n s₁ counted.0,
                  left,
                )
                (
                  refl,
                  record {
                    ready = counted.3.ready removed.3;
                    counts = counted.3.total t i;
                    likes = λ u'. counted.3.liked u' t i ∙ gone u';
                    cache = inl (counted.2, counted.1);
                  },
                )
          | inr down ↦
              let off = same.cache_up ∙ down in
              let (count, world, spawned) = fallback-offline svc b t i s₁ off removed.3 in
              let s₂ = (get_like_count_with_fallback svc t i s₁).1 in
              rw
                (
                  validates,
                  removed.0,
                  count,
                  decrement_count-down u n s₂ w₁ world (cache.decrement_down t i w₁ off)
                      (db.get_likes_count_up t i w₁ removed.3),
                  left,
                )
                (refl, record { ready = removed.3; counts = refl; likes = gone; cache = inr off })
        ]
