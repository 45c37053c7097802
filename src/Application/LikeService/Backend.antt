-- ===== src/Application/LikeService/Backend.antt =====
-- What the service's theorems take of its repositories: a view of the world (which rows there are,
-- which counts are cached, which store answers) and, for each method, its effect on the view.
use be_in_crypto_social_api.Prelude.{
  ℕ, suc, ◌+◌, ◌^◌, ◌<◌, ◌≡◌, ◌≢◌, Option, none, some, Bool, true, false, or_zero,
}
use be_in_crypto_social_api.Prelude.Exec.{ok, err}
use be_in_crypto_social_api.Domain.Errors.{cache_offline}
use be_in_crypto_social_api.Domain.Model.{
  to_timestamptz, DateTime, ContentId, ContentType, UserId, Like,
}
use be_in_crypto_social_api.Application.LikeService.Service.{LikeService, State, Mutex}

pub record View (W : Type 0) : Type 1 where
  -- the database answers, and its table satisfies its unique constraint
  pub DbReady : W → Type 0
  pub cache_up : W → Bool
  -- the stored `created_at` of a user's like
  pub liked : W → UserId → ContentType → ContentId → Option DateTime
  pub total : W → ContentType → ContentId → ℕ
  pub cached : W → ContentType → ContentId → Option ℕ

module _ {W : Type 0} (v : View W) where
  pub record SameDb (w w' : W) : Type 0 where
    pub ready : v.DbReady w → v.DbReady w'
    pub liked : (u : UserId) (t : ContentType) (i : ContentId) → v.liked w' u t i ≡ v.liked w u t i
    pub total : (t : ContentType) (i : ContentId) → v.total w' t i ≡ v.total w t i

  pub record SameCache (w w' : W) : Type 0 where
    pub cache_up : v.cache_up w' ≡ v.cache_up w
    pub cached : (t : ContentType) (i : ContentId) → v.cached w' t i ≡ v.cached w t i

-- The laws of the cache. No other task acts during a call.
pub record CacheLaws {W : Type 0} (svc : LikeService W) (v : View W) : Type 0 where
  pub get_count_up :
      (t : ContentType) (i : ContentId) (w : W)
      → v.cache_up w ≡ true
      → svc.cache_repo.get_count t i w ≡ (ok (v.cached w t i), w)
  pub get_count_down :
      (t : ContentType) (i : ContentId) (w : W)
      → v.cache_up w ≡ false
      → svc.cache_repo.get_count t i w ≡ (err cache_offline, w)
  -- the server's counters are signed 64-bit numbers
  pub increment_up :
      (t : ContentType) (i : ContentId) (w : W)
      → v.cache_up w ≡ true
      → or_zero (v.cached w t i) + 1 < 2 ^ 63
      → let (r, w') = svc.cache_repo.increment t i w in
        (r ≡ ok (or_zero (v.cached w t i) + 1))
        × (v.cached w' t i ≡ some (or_zero (v.cached w t i) + 1))
        × (v.cache_up w' ≡ true)
        × SameDb v w w'
  pub increment_down :
      (t : ContentType) (i : ContentId) (w : W)
      → v.cache_up w ≡ false
      → svc.cache_repo.increment t i w ≡ (err cache_offline, w)
  -- of a counter above 0
  pub decrement_up :
      (t : ContentType) (i : ContentId) (w : W) (n : ℕ)
      → v.cache_up w ≡ true
      → v.cached w t i ≡ some (suc n)
      → let (r, w') = svc.cache_repo.decrement t i w in
        (r ≡ ok n) × (v.cached w' t i ≡ some n) × (v.cache_up w' ≡ true) × SameDb v w w'
  pub decrement_down :
      (t : ContentType) (i : ContentId) (w : W)
      → v.cache_up w ≡ false
      → svc.cache_repo.decrement t i w ≡ (err cache_offline, w)
  pub set_value_up :
      (t : ContentType) (i : ContentId) (n : ℕ) (w : W)
      → v.cache_up w ≡ true
      → let w' = (svc.cache_repo.set_value t i n w).1 in
        (v.cached w' t i ≡ some n) × (v.cache_up w' ≡ true) × SameDb v w w'
  pub set_value_down :
      (t : ContentType) (i : ContentId) (n : ℕ) (w : W)
      → v.cache_up w ≡ false
      → svc.cache_repo.set_value t i n w ≡ (err cache_offline, w)

-- The laws of the database, while it answers.
pub record DbLaws {W : Type 0} (svc : LikeService W) (v : View W) : Type 0 where
  pub get_likes_count_up :
      (t : ContentType) (i : ContentId) (w : W)
      → v.DbReady w
      → svc.db_repo.get_likes_count t i w ≡ (ok (v.total w t i), w)
  pub get_like_up :
      (u : UserId) (t : ContentType) (i : ContentId) (w : W) (d : DateTime)
      → v.DbReady w
      → v.liked w u t i ≡ some d
      → (l : Like) × (svc.db_repo.get_like u t i w ≡ (ok l, w)) × (l.created_at ≡ d)
  pub save_new :
      (l : Like) (w : W)
      → v.DbReady w
      → v.liked w l.user_id l.content_type l.content_id ≡ none
      → let (r, w') = svc.db_repo.save l w in
        (r ≡ ok false)
        × (v.total w' l.content_type l.content_id ≡ v.total w l.content_type l.content_id + 1)
        × (v.liked w' l.user_id l.content_type l.content_id ≡ some (to_timestamptz l.created_at))
        × v.DbReady w'
        × SameCache v w w'
  pub save_others :
      (l : Like) (w : W) (u : UserId) (t : ContentType) (i : ContentId)
      → v.DbReady w
      → u ≢ l.user_id
      → v.liked (svc.db_repo.save l w).1 u t i ≡ v.liked w u t i
  pub save_existing :
      (l : Like) (w : W) (d : DateTime)
      → v.DbReady w
      → v.liked w l.user_id l.content_type l.content_id ≡ some d
      → svc.db_repo.save l w ≡ (ok true, w)
  pub remove_existing :
      (u : UserId) (t : ContentType) (i : ContentId) (w : W) (d : DateTime)
      → v.DbReady w
      → v.liked w u t i ≡ some d
      → let (r, w') = svc.db_repo.remove u t i w in
        (r ≡ ok true)
        × (v.total w t i ≡ v.total w' t i + 1)
        × (v.liked w' u t i ≡ none)
        × v.DbReady w'
        × SameCache v w w'
  pub remove_others :
      (u u' : UserId) (t t' : ContentType) (i i' : ContentId) (w : W)
      → v.DbReady w
      → u' ≢ u
      → v.liked (svc.db_repo.remove u t i w).1 u' t' i' ≡ v.liked w u' t' i'
  pub remove_absent :
      (u : UserId) (t : ContentType) (i : ContentId) (w : W)
      → v.DbReady w
      → v.liked w u t i ≡ none
      → svc.db_repo.remove u t i w ≡ (ok false, w)

-- A service over repositories with these laws, of which no other task takes a flight lock.
pub record Backend {W : Type 0} (svc : LikeService W) : Type 1 where
  pub view : View W
  pub cache : CacheLaws svc view
  pub db : DbLaws svc view
  pub quiet : (mutex : Mutex) (s : State W) → svc.until_granted mutex s ≡ s
