-- ===== src/Domain/Ports.antt =====
-- The traits of social_api/src/domain that the application layer calls: a record of methods,
-- each an action on the world `W` in which the implementation keeps its state.
use be_in_crypto_social_api.Prelude.{ℕ, ℤ, Text, List, Bool, Option}
use be_in_crypto_social_api.Prelude.Exec.{Exec}
use be_in_crypto_social_api.Domain.Errors.{DomainError}
use be_in_crypto_social_api.Domain.Model.{Uuid, DateTime, ContentId, ContentType, UserId, Like}
use be_in_crypto_social_api.Api.Dto.{
  ContentCount, ContentItem, PaginationCursor, SseLikeEvent, TopLikeItem,
}

abbrev pub Call : Type 0 → Type 0 → Type 0
Call W A = Exec DomainError W A

-- social_api/src/domain/like/repository.rs
pub record LikeDbRepository (W : Type 0) : Type 0 where
  pub save : Like → Call W Bool
  pub remove : UserId → ContentType → ContentId → Call W Bool
  pub get_like : UserId → ContentType → ContentId → Call W Like
  pub get_likes_by_pairs : UserId → List ContentItem → Call W (List Like)
  pub get_likes_count : ContentType → ContentId → Call W ℕ
  pub get_user_likes : UserId → Option Text → Option PaginationCursor → ℕ → Call W (List Like)
  pub get_counts_batch : List ContentItem → Call W (List ContentCount)
  pub get_top_likes : Option Text → Option DateTime → ℤ → Call W (List TopLikeItem)
  pub health_check : Call W (Unit {0})

-- social_api/src/domain/like/repository.rs; the pub/sub stream is the events that it delivers.
pub record LikeCacheRepository (W : Type 0) : Type 0 where
  pub increment : ContentType → ContentId → Call W ℕ
  pub decrement : ContentType → ContentId → Call W ℕ
  pub set_value : ContentType → ContentId → ℕ → Call W (Unit {0})
  pub get_count : ContentType → ContentId → Call W (Option ℕ)
  pub get_counts_batch : List ContentItem → Call W (List (ContentId × ℕ))
  pub set_counts_batch : List ContentCount → Call W (Unit {0})
  pub get_leaderboard_with_canary : Text → ContentType → Call W (Option (List TopLikeItem) × Bool)
  pub set_leaderboard_with_canary : Text → ContentType → List TopLikeItem → ℕ → Call W (Unit {0})
  pub acquire_refresh_lock : Text → ContentType → Call W Bool
  pub get_async_pubsub_stream : Call W (List Text)
  pub publish_like_event : SseLikeEvent → Call W (Unit {0})
  pub get_string : Text → Call W (Option Text)
  pub set_string : Text → Text → ℕ → Call W (Unit {0})
  pub health_check : Call W (Unit {0})

-- social_api/src/domain/external_validator.rs
pub record ExternalValidator (W : Type 0) : Type 0 where
  pub validate_user : UserId → Call W Uuid
  pub validate_content : ContentType → ContentId → Call W Uuid
  pub health_check : Call W (Unit {0})

pub data ValidationResult : Type 0 where
  valid : Uuid → ValidationResult
  not_found : ValidationResult

-- social_api/src/domain/rate_limit.rs
pub record RateLimitStatus : Type 0 where
  pub allowed : Bool
  pub remaining : ℕ
  pub limit : ℕ
  pub reset_after : ℕ

pub record RateLimiter (W : Type 0) : Type 0 where
  pub check_limit : Text → ℕ → ℕ → Call W RateLimitStatus
