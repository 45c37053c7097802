-- ===== src/Tests/Access.antt =====
-- A like of user 9, from the application with a limiter that allows everything.
use be_in_crypto_social_api.Prelude.{
  ℕ, List, Text, codes, ◌≡◌, ◌⊎◌, refl, [], ◌++◌, Option, none, some, true,
}
use be_in_crypto_social_api.Prelude.Exec.{ok}
use be_in_crypto_social_api.Domain.Model.{Uuid}
use be_in_crypto_social_api.Domain.Ports.{RateLimiter}
use be_in_crypto_social_api.Api.Errors.{ApiError}
use be_in_crypto_social_api.Api.Middleware.{Request, bearer, extract_key, rate_limit_layer}
use be_in_crypto_social_api.Api.App.{post_like, layers_of, refused, limited, per_minute, create_app}
use be_in_crypto_social_api.Api.App.Access.{create_app-protected}
use be_in_crypto_social_api.Api.RequestId.{RequestId}
use be_in_crypto_social_api.Api.Tracing.{Telemetry, Entry}
use be_in_crypto_social_api.Api.App.{Response, plain}
use be_in_crypto_social_api.Api.App.Correlation.{Tower, Identified}
use be_in_crypto_social_api.Tests.Fixtures.{uuid_text}
use be_in_crypto_social_api.Tests.Requests.{parse_uuid, validator, request}

abbrev limiter : RateLimiter ℕ
limiter = record {
  check_limit = λ key limit window calls.
      (ok (record { allowed = true; remaining = 29; limit = limit; reset_after = 2 }), calls);
}

abbrev count_calls : Request → ℕ → Text × ℕ
count_calls req calls = (codes "done", calls)

create_app-protected_example :
    let req = request (codes "Bearer 9") in
    let app =
      create_app parse_uuid uuid_text validator limiter 1000 30 post_like
        (codes "id")
        req
        count_calls
        0 in
    ((e : ApiError) × (app.0 ≡ refused e)
      × ((app.1 ≡ 0)
          ⊎ ((token : Uuid) × (app.1 ≡ (validator.validate_user (record { uuid = token }) 0).1))))
    ⊎ ((raw_token : Text) × (token : Uuid) × (uuid : Uuid) × (req.authorization
          ≡ some (bearer ++ raw_token))
        × (parse_uuid raw_token ≡ some token)
        × ((validator.validate_user (record { uuid = token }) 0).0 ≡ ok uuid)
        × (let s₁ = (validator.validate_user (record { uuid = token }) 0).1 in
            let user = record req { user_id = some (record { uuid = uuid }) } in
            let (l, s') = rate_limit_layer uuid_text (per_minute limiter 30) user count_calls s₁ in
            app ≡ (limited l, s'))
        × (extract_key uuid_text (record req { user_id = some (record { uuid = uuid }) })
            ≡ codes "rl:user:" ++ uuid_text uuid))
unfolding layers_of
create_app-protected_example =
    create_app-protected parse_uuid uuid_text validator limiter 1000 30 post_like (codes "id")
      (request (codes "Bearer 9")) count_calls 0 refl

-- a request without a token, with an identifier of its own
abbrev anonymous : Request
anonymous = record { authorization = none; user_id = none; connect_ip = none }

abbrev identify : Option RequestId → ℕ → RequestId × ℕ
identify (some id) s = (id, s)
identify none s = (some (codes "new"), s)

abbrev tower : Tower ℕ
tower = record { set_request_id = identify }

abbrev status_of : Identified (Response Text) → ℕ
status_of r = elim r.response [ refused e ↦ 401 | limited l ↦ 200 | plain b ↦ 200 ]

abbrev silent : Text → List Entry
silent answer = []

abbrev telemetry : Telemetry
telemetry = record { lines = []; requests_total = []; durations = [] }
