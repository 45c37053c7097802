-- ===== src/Api/Errors.antt =====
-- social_api/src/api/errors.rs: the response of a failed request.
pub mod Mapping
use be_in_crypto_social_api.Prelude.{ℕ, Text, codes, List, [], ◌∷◌, Option, none, some}
use be_in_crypto_social_api.Domain.Errors.{
  DomainError, unauthorized, content_not_found, unknown_content_type, invalid_content_id,
  batch_too_large, invalid_cursor, invalid_window, rate_limited, dependency_unavailable,
}

-- the values of the `json!` objects in `details`
pub data Value : Type 0 where
  text : Text → Value
  number : ℕ → Value

abbrev pub Details : Type 0
Details = Option (List (Text × Value))

pub record ErrorDetail : Type 0 where
  pub code : Text
  pub message : Text
  pub request_id : Text
  pub details : Details

pub record ErrorResponse : Type 0 where
  pub status : ℕ
  pub error : ErrorDetail

-- `ApiError`, the error and the identifier of its request
pub record ApiError : Type 0 where
  pub error : DomainError
  pub request_id : Text

-- the `match` of `into_response`
unfoldable pub classify : DomainError → ℕ × Text × Details
classify unauthorized = (401, codes "UNAUTHORIZED", none)
classify (content_not_found content_type content_id) = (
  404,
  codes "CONTENT_NOT_FOUND",
  some ((codes "content_type", text content_type) ∷ (codes "content_id", text content_id) ∷ []),
)
classify (unknown_content_type content_type) =
    (400, codes "CONTENT_TYPE_UNKNOWN", some ((codes "content_type", text content_type) ∷ []))
classify (invalid_content_id _) = (400, codes "INVALID_CONTENT_ID", none)
classify (batch_too_large _) = (400, codes "BATCH_TOO_LARGE", none)
classify (invalid_cursor _) = (400, codes "INVALID_CURSOR", none)
classify (invalid_window _) = (400, codes "INVALID_WINDOW", none)
classify (rate_limited retry_after) =
    (429, codes "RATE_LIMITED", some ((codes "retry_after", number retry_after) ∷ []))
classify (dependency_unavailable _) = (503, codes "DEPENDENCY_UNAVAILABLE", none)
classify _ = (500, codes "INTERNAL_ERROR", none)

-- `into_response`, over the `Display` of an error, which the crate `thiserror` derives
unfoldable pub into_response : (DomainError → Text) → ApiError → ErrorResponse
unfolding classify
into_response display e =
    let (status, code, details) = classify e.error in
    record {
      status = status;
      error = record {
        code = code;
        message = display e.error;
        request_id = e.request_id;
        details = details;
      };
    }
