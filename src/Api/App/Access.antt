-- ===== src/Api/App/Access.antt =====
-- Who reaches a handler of the application, and against whose budget.
use be_in_crypto_social_api.Prelude.{
  ℕ, Text, codes, ◌≡◌, refl, sym, ap, ◌∙◌, ◌++◌, ◌⊎◌, inl, inr, Option, Option-cases, some, arith,
}
use be_in_crypto_social_api.Prelude.Exec.{ok, Result-cases}
use be_in_crypto_social_api.Domain.Errors.{unauthorized}
use be_in_crypto_social_api.Domain.Model.{Uuid}
use be_in_crypto_social_api.Domain.Uuids.{UuidText}
use be_in_crypto_social_api.Domain.Ports.{ExternalValidator, RateLimiter}
use be_in_crypto_social_api.Api.Errors.{ApiError}
use be_in_crypto_social_api.Api.Middleware.{
  Request, bearer, strip_prefix, extract_key, authenticate, auth_middleware, rate_limit_layer,
}
use be_in_crypto_social_api.Api.Middleware.Guards.{strip_prefix-append}
use be_in_crypto_social_api.Api.App.{
  Route, protected, Response, refused, limited, layers_of, per_minute, through, create_app,
}

-- Where distinct UUIDs have distinct texts, requests that share a key of the limiter are of the same
-- user, or both of none: no address and no other user uses up a user's budget.
pub extract_key-user :
    (uuid_text : Uuid → Text) (r r' : Request)
    → UuidText uuid_text
    → extract_key uuid_text r ≡ extract_key uuid_text r'
    → r.user_id ≡ r'.user_id
unfolding extract_key
extract_key-user uuid_text r r' laws same = elim (Option-cases r.user_id) [
  | inl a ↦ elim (Option-cases r'.user_id) [
    | inl b ↦ a ∙ sym b
    | inr (u', b) ↦ absurd (ground (arith, same, a, b))
  ]
  | inr (u, a) ↦ elim (Option-cases r'.user_id) [
    | inl b ↦ absurd (ground (arith, same, a, b))
    | inr (u', b) ↦
        let texts : uuid_text u.uuid ≡ uuid_text u'.uuid = ground (arith, same, a, b) in
        let uuids : u.uuid ≡ u'.uuid = laws.injective u.uuid u'.uuid texts in
        a ∙ ap (λ (n : Uuid). some (record { uuid = n })) uuids ∙ sym b
  ]
]

module _ {S B : Type 0} (parse_uuid : Text → Option Uuid) (uuid_text : Uuid → Text)
    (extern_validator : ExternalValidator S) (rate_limiter : RateLimiter S)
    (read_per_minute write_per_minute : ℕ) (route : Route) (id : Text) (req : Request)
    (handler : Request → S → B × S) (s : S) where
  abbrev app : Response B × S
  app =
      create_app parse_uuid uuid_text extern_validator rate_limiter read_per_minute write_per_minute
        route id req handler s

  abbrev as_user : Uuid → Request
  as_user uuid = record req { user_id = some (record { uuid = uuid }) }

  -- A request of a protected route is either refused, and then neither the limiter nor the handler
  -- has run: the state is as it was or as the validator has left it. Or it carries `Bearer ` and a
  -- UUID that the validator accepts, and then the answer is that of the handler, run as the
  -- validated user behind the write limit, whose key is that user's.
  pub create_app-protected :
      layers_of route ≡ protected
      → ((e : ApiError) × (app.0 ≡ refused e)
          × ((app.1 ≡ s)
              ⊎ ((token : Uuid) × (app.1
                    ≡ (extern_validator.validate_user (record { uuid = token }) s).1))))
        ⊎ ((raw_token : Text) × (token : Uuid) × (uuid : Uuid) × (req.authorization
              ≡ some (bearer ++ raw_token))
            × (parse_uuid raw_token ≡ some token)
            × ((extern_validator.validate_user (record { uuid = token }) s).0 ≡ ok uuid)
            × (let s₁ = (extern_validator.validate_user (record { uuid = token }) s).1 in
                let budget = per_minute rate_limiter write_per_minute in
                let (l, s') = rate_limit_layer uuid_text budget (as_user uuid) handler s₁ in
                app ≡ (limited l, s'))
            × (extract_key uuid_text (as_user uuid) ≡ codes "rl:user:" ++ uuid_text uuid))
  unfolding create_app through auth_middleware authenticate extract_key
  create_app-protected inside = rw inside (elim (Option-cases req.authorization) [
    | inl e ↦ inl (
      record { error = unauthorized; request_id = id },
      ground (arith, e),
      inl (ground (arith, e)),
    )
    | inr (header, e) ↦ elim (Option-cases (strip_prefix bearer header)) [
      | inl f ↦ inl (
        record { error = unauthorized; request_id = id },
        ground (arith, e, f),
        inl (ground (arith, e, f)),
      )
      | inr (raw_token, f) ↦ elim (Option-cases (parse_uuid raw_token)) [
        | inl g ↦ inl (
          record { error = unauthorized; request_id = id },
          ground (arith, e, f, g),
          inl (ground (arith, e, f, g)),
        )
        | inr (token, g) ↦
            elim (Result-cases (extern_validator.validate_user (record { uuid = token }) s).0) [
              | inr (x, h) ↦ inl (
                record { error = x; request_id = id },
                ground (arith, e, f, g, h),
                inr (token, ground (arith, e, f, g, h)),
              )
              | inl (uuid, h) ↦ inr (
                raw_token,
                token,
                uuid,
                e ∙ ap (λ (t : Text). some t) (strip_prefix-append bearer header f),
                g,
                h,
                ground (arith, e, f, g, h),
                refl,
              )
            ]
      ]
    ]
  ])
