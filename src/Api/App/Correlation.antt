-- ===== src/Api/App/Correlation.antt =====
-- The layers around all routes of `create_app`, social_api/src/lib.rs, and the identifier by which a
-- client's error, its response's header and the log belong together. Of the log it holds what the code
-- of social_api/src/api writes; the breaker and the handlers of a stream log by themselves.
use be_in_crypto_social_api.Prelude.{ℕ, Text, List, [], ◌∷◌, ◌++◌, Option, some}
use be_in_crypto_social_api.Domain.Model.{Uuid}
use be_in_crypto_social_api.Domain.Ports.{ExternalValidator, RateLimiter}
use be_in_crypto_social_api.Api.RequestId.{RequestId, or_unknown}
use be_in_crypto_social_api.Api.Middleware.{Request, served, too_many_requests, unlimited}
use be_in_crypto_social_api.Api.Tracing.{
  Telemetry, Entry, failed, limiter_failed, tracing_middleware,
}
use be_in_crypto_social_api.Api.App.{
  Route, Layers, Response, refused, limited, plain, through, create_app,
}

-- The layers of the crate `tower_http` on the header `x-request-id`: the request's value, or else a
-- new one, is put into the request, and from there into the response.
pub record Tower (S : Type 0) : Type 0 where
  pub set_request_id : Option RequestId → S → RequestId × S

-- A response with its header `x-request-id`.
pub record Identified (B : Type 0) : Type 0 where
  pub response : B
  pub x_request_id : RequestId

module _ {S B : Type 0} (tower : Tower S) (millis : S → ℕ) (parse_uuid : Text → Option Uuid)
    (uuid_text : Uuid → Text) (extern_validator : ExternalValidator S)
    (rate_limiter : RateLimiter S) (read_per_minute write_per_minute : ℕ)
    (status_of : Identified (Response B) → ℕ) (logged_by : B → List Entry) where
  -- what is logged on the way to a response: by the response of an `ApiError`, by the rate limiter's
  -- layer, and by what the handler answered, of which `logged_by` knows
  abbrev logged_of : Response B → List Entry
  logged_of (refused e) = failed e.error e.request_id ∷ []
  logged_of (limited (served b h)) = logged_by b
  logged_of (limited (too_many_requests h)) = []
  logged_of (limited (unlimited b)) = limiter_failed ∷ logged_by b
  logged_of (plain b) = logged_by b

  -- the routes behind `ReqCtx`, and the layer that propagates the identifier
  abbrev identified :
      Route
      → RequestId
      → Request
      → (Text → Request → S → B × S)
      → S × Telemetry
      → Identified (Response B) × (S × Telemetry)
  identified route id req handler (s, t) =
      let (response, s') =
        create_app parse_uuid uuid_text extern_validator rate_limiter read_per_minute
          write_per_minute route (or_unknown (some id)) req (handler (or_unknown (some id))) s in
      (
        record { response = response; x_request_id = id },
        (s', record t { lines = t.lines ++ logged_of response }),
      )

  -- The three layers of the router that `create_app` returns, the last one first.
  unfoldable pub serve :
      Route
      → (method path : Text) → Option RequestId
      → Request
      → (Text → Request → S → B × S)
      → S × Telemetry
      → Identified (Response B) × (S × Telemetry)
  unfolding tracing_middleware
  serve route method path header req handler (s, t) =
      let (id, s₁) = tower.set_request_id header s in
      tracing_middleware millis status_of method path (some id) (identified route id req handler)
        (s₁, t)

  abbrev behind : Layers → Text → Request → (Request → S → B × S) → S → Response B × S
  behind =
      through parse_uuid uuid_text extern_validator rate_limiter read_per_minute write_per_minute
