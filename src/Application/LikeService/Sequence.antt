-- ===== src/Application/LikeService/Sequence.antt =====
-- The likes of one content as a counter and the time of each user's like, and how the service's
-- `add_like` and `remove_like`, in any sequence, are to follow it.
use be_in_crypto_social_api.Prelude.{
  ℕ, ◌+◌, ◌-◌, ◌≡◌, ◌⊎◌, inl, inr, List, [], ◌∷◌, Option, none, some, true, false, ite,
}
use be_in_crypto_social_api.Prelude.Exec.{Result, ok, err}
use be_in_crypto_social_api.Domain.Errors.{DomainError}
use be_in_crypto_social_api.Domain.Model.{
  to_timestamptz, DateTime, ContentId, ContentType, UserId, UserId-discrete,
}
use be_in_crypto_social_api.Api.Dto.{UnlikeResponse}
use be_in_crypto_social_api.Application.Commands.{AddLikeCommandResult}
use be_in_crypto_social_api.Application.LikeService.Service.{LikeService, State}
use be_in_crypto_social_api.Application.LikeService.Likes.{add_like, remove_like}
use be_in_crypto_social_api.Application.LikeService.Backend.{Backend}
pub mod Steps
pub mod Runs

pub data Action : Type 0 where
  like_by : UserId → Action
  unlike_by : UserId → Action

abbrev pub Answer : Type 0
Answer = AddLikeCommandResult ⊎ UnlikeResponse

pub record Ideal : Type 0 where
  pub count : ℕ
  pub liked : UserId → Option DateTime

abbrev pub answer_like : Result DomainError AddLikeCommandResult → Result DomainError Answer
answer_like (ok a) = ok (inl a)
answer_like (err e) = err e

abbrev pub answer_unlike : Result DomainError UnlikeResponse → Result DomainError Answer
answer_unlike (ok a) = ok (inr a)
answer_unlike (err e) = err e

-- the like of one user replaced
unfoldable pub update :
    UserId → Option DateTime → (UserId → Option DateTime) → UserId → Option DateTime
update u d liked u' = ite (UserId-discrete u' u) d (liked u')

abbrev pub ideal_like : UserId → DateTime → Option DateTime → Ideal → AddLikeCommandResult × Ideal
ideal_like u now (some d) m =
    (record { liked = true; already_existed = true; count = m.count; liked_at = d }, m)
ideal_like u now none m = (
  record { liked = true; already_existed = false; count = m.count + 1; liked_at = now },
  record { count = m.count + 1; liked = update u (some (to_timestamptz now)) m.liked },
)

abbrev pub ideal_unlike : UserId → Option DateTime → Ideal → UnlikeResponse × Ideal
ideal_unlike u none m = (record { liked = false; was_liked = false; count = m.count }, m)
ideal_unlike u (some d) m = (
  record { liked = false; was_liked = true; count = m.count - 1 },
  record { count = m.count - 1; liked = update u none m.liked },
)

module _ {W : Type 0} (svc : LikeService W) (b : Backend svc) (t : ContentType)
    (i : ContentId) where
  open b use {view}

  -- The world stands for the ideal: the table has its likes of the content and its count, and the
  -- cache has its count or is down.
  pub record Tracks (w : W) (m : Ideal) : Type 0 where
    pub ready : view.DbReady w
    pub counts : view.total w t i ≡ m.count
    pub likes : (u : UserId) → view.liked w u t i ≡ m.liked u
    pub cache :
        ((view.cache_up w ≡ true) × (view.cached w t i ≡ some m.count)) ⊎ (view.cache_up w ≡ false)

  -- a request of one user for the content
  unfoldable pub perform : Action → State W → Result DomainError Answer × State W
  perform (like_by u) s =
      let (r, s') = add_like svc (record { user_id = u; content_type = t; content_id = i }) s in
      (answer_like r, s')
  perform (unlike_by u) s = let (r, s') = remove_like svc u t i s in (answer_unlike r, s')

  -- what the ideal answers, at the time of the service's clock
  unfoldable pub expect : Action → W → Ideal → Answer × Ideal
  expect (like_by u) w m = let (a, m') = ideal_like u (svc.now w) (m.liked u) m in (inl a, m')
  expect (unlike_by u) w m = let (a, m') = ideal_unlike u (m.liked u) m in (inr a, m')

  -- The requests are answered, one after the other, as the ideal answers them, and the last world
  -- stands for the last ideal.
  unfoldable pub Follows : List Action → State W → Ideal → Type 0
  Follows [] s m = Tracks s.world m
  Follows (a ∷ actions) s m =
      let (r, s') = perform a s in
      let (answer, m') = expect a s.world m in (r ≡ ok answer) × Follows actions s' m'
