-- ===== src/Api/Middleware/Guards.antt =====
-- Which requests reach a handler behind the layers.
use be_in_crypto_social_api.Prelude.{
  Text, ◌≡◌, refl, sym, ap, ◌∙◌, [], ◌∷◌, ◌++◌, Option, none, some, arith, ◌==◌, Bool-cases,
  Option-cases, inl, inr, ==_iff,
}
use be_in_crypto_social_api.Prelude.Exec.{Result, ok, Result-cases}
use be_in_crypto_social_api.Domain.Model.{Uuid}
use be_in_crypto_social_api.Domain.Ports.{ExternalValidator}
use be_in_crypto_social_api.Api.Errors.{ApiError}
use be_in_crypto_social_api.Api.Middleware.{
  Request, bearer, strip_prefix, authenticate, parse_token, auth_middleware,
}

-- the rest of a text behind its prefix
pub strip_prefix-append : (p s : Text) {r : Text} → strip_prefix p s ≡ some r → s ≡ p ++ r
unfolding strip_prefix
strip_prefix-append [] s h = cc
strip_prefix-append (c ∷ cs) [] h = cc
strip_prefix-append (c ∷ cs) (d ∷ ds) {r} h = elim (Bool-cases (c == d)) [
  | inl e ↦
      let rest : strip_prefix cs ds ≡ some r = ground (arith, e, h) in
      let same : c ≡ d = (==_iff c d).0 e in cc (strip_prefix-append cs ds rest, same)
  | inr e ↦ absurd (ground (arith, e, h))
]

module _ {S A : Type 0} (parse_uuid : Text → Option Uuid) (validator : ExternalValidator S)
    (id : Text) (req : Request) (next : Request → S → Result ApiError A × S) (s : S) where
  authenticate-ok :
      (token : Uuid) (a : A)
      → (authenticate parse_uuid validator id req next token s).0 ≡ ok a
      → (uuid : Uuid) × ((validator.validate_user (record { uuid = token }) s).0 ≡ ok uuid)
        × (authenticate parse_uuid validator id req next token s
            ≡ next
                (record req { user_id = some (record { uuid = uuid }) })
                (validator.validate_user (record { uuid = token }) s).1)
  unfolding authenticate
  authenticate-ok token a h =
      elim (Result-cases (validator.validate_user (record { uuid = token }) s).0) [
        | inl (uuid, e) ↦ (uuid, e, ground (arith, e))
        | inr (x, e) ↦ absurd (ground (arith, e, h))
      ]

  parse_token-ok :
      (raw : Option Text) (a : A)
      → (parse_token parse_uuid validator id req next raw s).0 ≡ ok a
      → (raw_token : Text) × (token : Uuid) × (raw ≡ some raw_token)
        × (parse_uuid raw_token ≡ some token)
        × (parse_token parse_uuid validator id req next raw s
            ≡ authenticate parse_uuid validator id req next token s)
  parse_token-ok none a h = absurd (ground (arith, h))
  parse_token-ok (some raw_token) a h = elim (Option-cases (parse_uuid raw_token)) [
    | inl e ↦ absurd (ground (arith, e, h))
    | inr (token, e) ↦ (raw_token, token, refl, e, ground (arith, e))
  ]

  -- A request that is answered without an error carries `Bearer ` and a UUID that the validator
  -- accepts, and its answer is the handler's, run as the user that the validator named.
  pub auth-ok :
      (a : A)
      → (auth_middleware parse_uuid validator id req next s).0 ≡ ok a
      → (raw_token : Text) × (token : Uuid) × (uuid : Uuid) × (req.authorization
          ≡ some (bearer ++ raw_token))
        × (parse_uuid raw_token ≡ some token)
        × ((validator.validate_user (record { uuid = token }) s).0 ≡ ok uuid)
        × (auth_middleware parse_uuid validator id req next s
            ≡ next
                (record req { user_id = some (record { uuid = uuid }) })
                (validator.validate_user (record { uuid = token }) s).1)
  unfolding auth_middleware
  auth-ok a h = elim (Option-cases req.authorization) [
    | inl e ↦ absurd (ground (arith, e, h))
    | inr (header, e) ↦
        let same : auth_middleware parse_uuid validator id req next s
            ≡ parse_token parse_uuid validator id req next (strip_prefix bearer header) s =
          ground (arith, e) in
        let parsed =
          parse_token-ok (strip_prefix bearer header) a
            (ap (λ (p : Result ApiError A × S). p.0) (sym same) ∙ h) in
        let named =
          authenticate-ok parsed.1 a
            (ap (λ (p : Result ApiError A × S). p.0) (sym (same ∙ parsed.4)) ∙ h) in
        (
          parsed.0,
          parsed.1,
          named.0,
          e ∙ ap (λ (t : Text). some t) (strip_prefix-append bearer header parsed.2),
          parsed.3,
          named.1,
          same ∙ parsed.4 ∙ named.2,
        )
  ]
