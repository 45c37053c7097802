-- ===== src/Api/App.antt =====
-- `create_app` of social_api/src/lib.rs: the routes and the layers around their handlers. The match
-- of a method and a path to its route is the router's; request identifiers and traces are
-- in Correlation, the recorder of metrics in Metrics.
pub mod Access
pub mod Correlation
pub mod Metrics
use be_in_crypto_social_api.Prelude.{ℕ, Text, Option}
use be_in_crypto_social_api.Prelude.Exec.{Result, ok, err}
use be_in_crypto_social_api.Domain.Model.{Uuid}
use be_in_crypto_social_api.Domain.Ports.{ExternalValidator, RateLimiter}
use be_in_crypto_social_api.Api.Errors.{ApiError}
use be_in_crypto_social_api.Api.Middleware.{
  Request, RateLimitConfig, Limited, auth_middleware, rate_limit_layer,
}

-- a route by its handler
pub data Route : Type 0 where
  get_count_batch get_count get_top_likes sse_stream : Route
  post_like delete_unlike get_status get_user_likes get_status_batch : Route
  liveness readiness metrics : Route

pub data Layers : Type 0 where
  public protected bare : Layers

-- the router that a route stands in
unfoldable pub layers_of : Route → Layers
layers_of get_count_batch = public
layers_of get_count = public
layers_of get_top_likes = public
layers_of sse_stream = public
layers_of post_like = protected
layers_of delete_unlike = protected
layers_of get_status = protected
layers_of get_user_likes = protected
layers_of get_status_batch = protected
layers_of liveness = bare
layers_of readiness = bare
layers_of metrics = bare

-- A response: the authentication's error, that of the rate limiter's layer, or the handler's own.
pub data Response (B : Type 0) : Type 0 where
  refused : ApiError → Response B
  limited : Limited B → Response B
  plain : B → Response B

-- `read_limit` and `write_limit`
abbrev pub per_minute : {S : Type 0} → RateLimiter S → ℕ → RateLimitConfig S
per_minute rate_limiter limit = record { limiter = rate_limiter; limit = limit; window = 60 }

module _ {S B : Type 0} (parse_uuid : Text → Option Uuid) (uuid_text : Uuid → Text)
    (extern_validator : ExternalValidator S) (rate_limiter : RateLimiter S)
    (read_per_minute write_per_minute : ℕ) where
  abbrev response_of : Result ApiError (Limited B) → Response B
  response_of (ok l) = limited l
  response_of (err e) = refused e

  -- the write limit, inside the authentication
  abbrev inner : (Request → S → B × S) → Request → S → Result ApiError (Limited B) × S
  inner handler req s =
      let (l, s') =
        rate_limit_layer uuid_text (per_minute rate_limiter write_per_minute) req handler s in
      (ok l, s')

  unfoldable pub through : Layers → Text → Request → (Request → S → B × S) → S → Response B × S
  through public id req handler s =
      let (l, s') =
        rate_limit_layer uuid_text (per_minute rate_limiter read_per_minute) req handler s in
      (limited l, s')
  through protected id req handler s =
      let (r, s') = auth_middleware parse_uuid extern_validator id req (inner handler) s in
      (response_of r, s')
  through bare id req handler s = let (b, s') = handler req s in (plain b, s')

  unfoldable pub create_app : Route → Text → Request → (Request → S → B × S) → S → Response B × S
  unfolding through layers_of
  create_app route = through (layers_of route)
