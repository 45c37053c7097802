-- ===== src/Api/Middleware.antt =====
-- social_api/src/api/middleware.rs: authentication and rate limiting around a handler. A handler
-- runs on a state `S` and gives a response `B`; `Response` adds what the layers answer themselves.
pub mod Guards
use be_in_crypto_social_api.Prelude.{
  ℕ, ◌==◌, Text, codes, List, [], ◌∷◌, ◌++◌, Option, none, some, Bool, true, false, if◌then◌else◌,
}
use be_in_crypto_social_api.Prelude.Exec.{Result, ok, err, Exec}
use be_in_crypto_social_api.Domain.Errors.{DomainError, unauthorized}
use be_in_crypto_social_api.Domain.Model.{Uuid, UserId}
use be_in_crypto_social_api.Domain.Ports.{ExternalValidator, RateLimiter, RateLimitStatus, Call}
use be_in_crypto_social_api.Api.Errors.{ApiError}

-- The parts of a request that the layers read: its `Authorization` header as text, the
-- user that an outer layer has put in, and the address of its connection.
pub record Request : Type 0 where
  pub authorization : Option Text
  pub user_id : Option UserId
  pub connect_ip : Option Text

abbrev pub bearer : Text
bearer = codes "Bearer "

-- what stands behind a prefix of a text
unfoldable pub strip_prefix : Text → Text → Option Text
strip_prefix [] text = some text
strip_prefix (c ∷ cs) [] = none
strip_prefix (c ∷ cs) (d ∷ ds) = if c == d then strip_prefix cs ds else none

-- `parse_str` of the crate `uuid` is a parameter.
module _ {S A : Type 0} (parse_uuid : Text → Option Uuid) (validator : ExternalValidator S) where
  abbrev deny : DomainError → Text → S → Result ApiError A × S
  deny e id s = (err (record { error = e; request_id = id }), s)

  -- the call of `validate_user`, and then the rest of the request as the validated user
  unfoldable pub authenticate :
      Text → Request → (Request → S → Result ApiError A × S) → Uuid → S → Result ApiError A × S
  authenticate id req next token s =
      let (r, s') = validator.validate_user (record { uuid = token }) s in
      elim r [
        | ok uuid ↦ next (record req { user_id = some (record { uuid = uuid }) }) s'
        | err e ↦ deny e id s'
      ]

  abbrev parse_token :
      Text
      → Request
      → (Request → S → Result ApiError A × S)
      → Option Text
      → S
      → Result ApiError A × S
  parse_token id req next none s = deny unauthorized id s
  parse_token id req next (some raw_token) s = elim (parse_uuid raw_token) [
    | none ↦ deny unauthorized id s
    | some token ↦ authenticate id req next token s
  ]

  unfoldable pub auth_middleware :
      Text → Request → (Request → S → Result ApiError A × S) → S → Result ApiError A × S
  unfolding authenticate strip_prefix
  auth_middleware id req next s = elim req.authorization [
    | none ↦ deny unauthorized id s
    | some auth_header ↦ parse_token id req next (strip_prefix bearer auth_header) s
  ]

-- `extract_key`
abbrev key_of : (Uuid → Text) → Option UserId → Option Text → Text
key_of uuid_text (some user_id) ip = codes "rl:user:" ++ uuid_text user_id.uuid
key_of uuid_text none (some ip) = codes "rl:ip:" ++ ip
key_of uuid_text none none = codes "rl:unknown"

unfoldable pub extract_key : (Uuid → Text) → Request → Text
extract_key uuid_text req = key_of uuid_text req.user_id req.connect_ip

pub record RateLimitConfig (S : Type 0) : Type 0 where
  pub limiter : RateLimiter S
  pub limit : ℕ
  pub window : ℕ

-- the headers that the layer adds
pub record RateHeaders : Type 0 where
  pub limit : ℕ
  pub remaining : ℕ
  pub reset : ℕ
  pub retry_after : Option ℕ

-- A response behind the layer: that of the handler or a bare 429, with the headers; or that of
-- the handler as it is, where the limiter has failed.
pub data Limited (B : Type 0) : Type 0 where
  served : B → RateHeaders → Limited B
  too_many_requests : RateHeaders → Limited B
  unlimited : B → Limited B

module _ {S : Type 0} (cfg : RateLimitConfig S) where
  abbrev headers : RateLimitStatus → Option ℕ → RateHeaders
  headers status retry = record {
    limit = cfg.limit;
    remaining = status.remaining;
    reset = status.reset_after;
    retry_after = retry;
  }

module _ {S B : Type 0} (uuid_text : Uuid → Text) (cfg : RateLimitConfig S) where
  -- the `Ok(status)` arm
  unfoldable pub apply_limit : RateLimitStatus → Request → (Request → S → B × S) → S → Limited B × S
  apply_limit status req next s =
      if status.allowed
      then (let (b, s') = next req s in (served b (headers cfg status none), s'))
      else (too_many_requests (headers cfg status (some status.reset_after)), s)

  unfoldable pub rate_limit_layer : Request → (Request → S → B × S) → S → Limited B × S
  unfolding apply_limit
  rate_limit_layer req next s =
      let (r, s') = cfg.limiter.check_limit (extract_key uuid_text req) cfg.limit cfg.window s in
      elim r [
        | ok status ↦ apply_limit status req next s'
        | err e ↦ (let (b, s'') = next req s' in (unlimited b, s''))
      ]
