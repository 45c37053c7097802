-- ===== src/Api/Tracing.antt =====
-- `tracing_middleware` of social_api/src/api/middleware.rs: what it logs and measures of a response.
use be_in_crypto_social_api.Prelude.{
  ℕ, ◌-◌, Text, List, [], ◌∷◌, ◌++◌, Option, Bool, ◌&&◌, ◌||◌, leb, ltb, if◌then◌else◌,
}
use be_in_crypto_social_api.Domain.Errors.{DomainError}
use be_in_crypto_social_api.Api.RequestId.{RequestId, or_unknown}

pub data Level : Type 0 where
  error info : Level

-- what the layer logs of a response, in the span of its request
pub record Line : Type 0 where
  pub level : Level
  pub request_id : Text
  pub status : ℕ
  pub latency_ms : ℕ

-- The lines that the code of social_api/src/api logs of a request: those of this layer, of
-- `into_response` for an `ApiError` (errors.rs), and of `rate_limit_layer` where the limiter fails.
pub data Entry : Type 0 where
  responded : Line → Entry
  failed : (domain_error : DomainError) (request_id : Text) → Entry
  limiter_failed : Entry

-- What the layer adds to: the log, the increments of `social_api_http_requests_total` with their
-- labels, and the records of `social_api_http_request_duration_seconds`, in milliseconds.
pub record Telemetry : Type 0 where
  pub lines : List Entry
  pub requests_total : List (Text × Text × ℕ)
  pub durations : List (Text × Text × ℕ)

-- `is_client_error` and `is_server_error`
abbrev pub is_client_error : ℕ → Bool
is_client_error status = leb 400 status && ltb status 500

abbrev pub is_server_error : ℕ → Bool
is_server_error status = leb 500 status && ltb status 600

abbrev pub level_of : ℕ → Level
level_of status = if is_client_error status || is_server_error status then error else info

-- The clock in milliseconds and the status of a response are parameters.
module _ {S B : Type 0} (millis : S → ℕ) (status_of : B → ℕ) (method path : Text)
    (extension : Option RequestId) where
  abbrev pub observe : ℕ → ℕ → Telemetry → Telemetry
  observe status latency t = record {
    lines =
        t.lines
        ++ (responded (record {
          level = level_of status;
          request_id = or_unknown extension;
          status = status;
          latency_ms = latency;
        })
            ∷ []);
    requests_total = t.requests_total ++ (method, path, status) ∷ [];
    durations = t.durations ++ (method, path, latency) ∷ [];
  }

  unfoldable pub tracing_middleware :
      (S × Telemetry → B × (S × Telemetry)) → S × Telemetry → B × (S × Telemetry)
  tracing_middleware next (s, t₀) =
      let (response, (s', t)) = next (s, t₀) in
      (response, (s', observe (status_of response) (millis s' - millis s) t))
