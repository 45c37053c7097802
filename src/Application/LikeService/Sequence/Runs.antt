-- ===== src/Application/LikeService/Sequence/Runs.antt =====
-- Sequences of likes and unlikes against the ideal.
use be_in_crypto_social_api.Prelude.{
  ◌+◌, ◌^◌, ◌<◌, ◌≤◌, ◌≡◌, refl, List, [], ◌∷◌, length, Option-cases, inl, inr, arith,
}
use be_in_crypto_social_api.Prelude.Exec.{ok}
use be_in_crypto_social_api.Domain.Model.{ContentId, ContentType}
use be_in_crypto_social_api.Application.LikeService.Service.{LikeService, State}
use be_in_crypto_social_api.Application.LikeService.Backend.{Backend}
use be_in_crypto_social_api.Application.LikeService.Drift.{Validates}
use be_in_crypto_social_api.Application.LikeService.Sequence.{
  Action, like_by, unlike_by, Ideal, Tracks, perform, expect, Follows,
}
use be_in_crypto_social_api.Application.LikeService.Sequence.Steps.{
  like_new, like_again, unlike_absent, unlike_liked,
}

module _ {W : Type 0} (svc : LikeService W) (b : Backend svc) (t : ContentType) (i : ContentId)
    (validates : (w : W) → Validates svc b t i w) where
  perform-expect :
      (a : Action) (s : State W) (m : Ideal)
      → Tracks svc b t i s.world m
      → m.count + 1 < 2 ^ 63
      → let (r, s') = perform svc b t i a s in
        let (answer, m') = expect svc b t i a s.world m in
        (r ≡ ok answer) × Tracks svc b t i s'.world m' × (m'.count ≤ m.count + 1)
  unfolding perform expect
  perform-expect (like_by u) s m tracks room = elim (Option-cases (m.liked u)) [
    | inl fresh ↦
        let (answer, next) = like_new svc b t i u s m (validates s.world) tracks room fresh in
        rw (fresh, answer) (refl, next, ground arith)
    | inr (d, old) ↦
        let (answer, next) = like_again svc b t i u s m (validates s.world) tracks d old in
        rw (old, answer) (refl, next, ground arith)
  ]
  perform-expect (unlike_by u) s m tracks room = elim (Option-cases (m.liked u)) [
    | inl fresh ↦
        let (answer, next) = unlike_absent svc b t i u s m (validates s.world) tracks fresh in
        rw (fresh, answer) (refl, next, ground arith)
    | inr (d, old) ↦
        let (answer, next) = unlike_liked svc b t i u s m (validates s.world) tracks d old in
        rw (old, answer) (refl, next, ground arith)
  ]

  -- Likes and unlikes of one content by any users, any number and one after the other, are each
  -- answered as by a counter that starts at the table's count and the times of the users' likes,
  -- and keeps the time of a new one in whole microseconds; the last world agrees with the last
  -- counter. This holds while the content is valid, over repositories that satisfy the laws, from a
  -- table that answers and a cache that has its count or is down, and while the counter stays below
  -- 2^63.
  pub follows :
      (actions : List Action) (s : State W) (m : Ideal)
      → Tracks svc b t i s.world m
      → m.count + length actions < 2 ^ 63
      → Follows svc b t i actions s m
  unfolding Follows
  follows [] s m tracks room = tracks
  follows (a ∷ actions) s m tracks room =
      let (answer, tracks', more) = perform-expect a s m tracks (omega arith) in
      (answer, follows actions _ _ tracks' (omega (arith, more)))
