-- ===== src/Domain/Errors.antt =====
-- social_api/src/domain/errors.rs
use be_in_crypto_social_api.Prelude.{ℕ, Text}

pub data DomainError : Type 0 where
  internal_error : Text → DomainError
  validation_error : Text → DomainError
  invalid_config : Text → DomainError
  unauthorized : DomainError
  content_not_found : (content_type content_id : Text) → DomainError
  unknown_content_type : (content_type : Text) → DomainError
  invalid_content_id : Text → DomainError
  batch_too_large : ℕ → DomainError
  invalid_cursor : Text → DomainError
  invalid_window : Text → DomainError
  rate_limited : (retry_after : ℕ) → DomainError
  dependency_unavailable : (service : Text) → DomainError
  dependency_deserialize_error : (service : Text) → DomainError
  dependency_not_found : (service : Text) → DomainError
  dependency_healt_error : Text → DomainError
  database_error : Text → DomainError
  database_health_error : Text → DomainError
  database_not_found : Text → DomainError
  cache_error : Text → DomainError
  cache_miss : DomainError
  cache_health_error : Text → DomainError
  cache_offline : DomainError
  sse_key_error : DomainError

-- How a call ends without a result: by a returned `DomainError`, or by a panic of its task.
pub data Failure : Type 0 where
  domain : DomainError → Failure
  panicked : Failure
