-- ===== src/Mocks/Validation.antt =====
-- The external validator of the program against the mock services.
use be_in_crypto_social_api.Prelude.{
  ℕ, ◌<◌, Text, Text-discrete, codes, ◌≡◌, refl, ap, ◌∙◌, List, ◌++◌, Option, Option-cases,
  Bool-cases, inl, inr, none, some, Bool, true, false, get, arith,
}
use be_in_crypto_social_api.Prelude.Exec.{Result, ok, err}
use be_in_crypto_social_api.Domain.Errors.{
  DomainError, content_not_found, dependency_unavailable, dependency_not_found,
}
use be_in_crypto_social_api.Domain.Model.{Uuid, ContentId, ContentType, UserId}
use be_in_crypto_social_api.Domain.Ports.{valid, Call}
use be_in_crypto_social_api.Api.Middleware.{bearer, strip_prefix}
use be_in_crypto_social_api.Infrastructure.Dto.{UserDto, ContentDto}
use be_in_crypto_social_api.Infrastructure.Breaker.{
  closed, CircuitBreaker, check_state, call, settle, admit,
}
use be_in_crypto_social_api.Infrastructure.Validator.{
  HttpExternalValidator, Flight, Response, profile_api, get_cached_validation,
  set_cached_validation, user_key, validate_user, validate_content, request, user_id_of,
  content_id_of, read_response, through_breaker, call_profile_api, call_content_api, call_at,
  content_key, enter,
}
use be_in_crypto_social_api.Infrastructure.Validator.Caching.{validate_content-lands}
use be_in_crypto_social_api.Mocks.{
  AppState, Body, auth, content, Answer, contains, accept, validate_token, check_content,
}

-- What `serde_json` reads of a body, where the text of a user's identifier is parsed: a body that
-- lacks a field of the type is not read as it.
abbrev pub user_of : (Text → Option Uuid) → Body → Option UserDto
user_of parse_str (auth a) = elim (parse_str a.user_id) [
  | some user_id ↦
      some (record { user_id = user_id; display_name = a.display_name; valid = a.valid })
  | none ↦ none
]
user_of parse_str _ = none

abbrev pub content_of : Body → Option ContentDto
content_of (content c) = some (record { id = c.id; content_type = c.content_type })
content_of _ = none

abbrev pub as_response : (Text → Option Uuid) → Answer → Response
as_response parse_str a = record {
  status = a.status;
  as_user = user_of parse_str a.body;
  as_content = content_of a.body;
}

module _ {W : Type 0} (v : HttpExternalValidator W) (parse_str : Text → Option Uuid)
    (profiles contents : AppState) where
  -- The mocks are reachable at the URLs that the validator was given: the request for a token comes
  -- with the header `Authorization: Bearer <token>`, that for a content with its type and identifier
  -- as the segments of its path. The text of a UUID is parsed back to it.
  pub record AreReachable : Type 0 where
    pub profile :
        (token : Text) (w : W)
        → v.send (v.profile_service_url ++ codes "/v1/auth/validate") (some token) w ≡ (
          ok (as_response parse_str (validate_token (some (some (bearer ++ token))) profiles)),
          w,
        )
    pub content :
        (t : ContentType) (i : ContentId) (base_url : Text) (w : W)
        → get Text-discrete t.as_str v.content_apis ≡ some base_url
        → v.send
            (base_url ++ (codes "/v1/" ++ (t.as_str ++ (codes "/" ++ v.uuid_text i.uuid))))
            none
            w
          ≡ (ok (as_response parse_str (check_content t.as_str i.uuid contents)), w)
    pub parsed : (u : Uuid) → parse_str (v.uuid_text u) ≡ some u

  is_closed :
      (now : ℕ) (b : CircuitBreaker) → b.failures < b.threshold → (check_state now b).0 ≡ closed
  unfolding check_state
  is_closed now b below = ground arith

  settle-result :
      (p : Result DomainError Uuid × W) (b : CircuitBreaker)
      → let (r, (b', w')) = settle v.seconds p b in (r ≡ p.0) × (w' ≡ p.1)
  unfolding settle
  settle-result (ok d, w) b = (refl, refl)
  settle-result (err e, w) b = (refl, refl)

  -- a breaker that is not tripped passes a call on
  through_breaker-closed :
      (f : Call W Uuid) (s : Flight W)
      → s.breaker.failures < s.breaker.threshold
      → let (r, s') = through_breaker v f s in (r ≡ (f s.world).0) × (s'.world ≡ (f s.world).1)
  unfolding through_breaker call admit
  through_breaker-closed f s below =
      rw (is_closed (v.seconds s.world) s.breaker below) (settle-result (f s.world) _)

  -- what a token's entry in the list of the profile mock makes of its validation
  abbrev verdict : UserId → Option Text → Result DomainError Uuid
  verdict token (some display_name) = ok token.uuid
  verdict token none = err (dependency_unavailable profile_api)

  abbrev remembered : UserId → Option Text → W → W
  remembered token (some display_name) w =
      set_cached_validation v (user_key v token) (valid token.uuid) 300 w
  remembered token none w = w

  abbrev entry : UserId → Option Text
  entry token = get Text-discrete (v.uuid_text token.uuid) profiles.valid_tokens

  validate_token-bearer :
      (token : Text)
      → validate_token (some (some (bearer ++ token))) profiles
        ≡ accept token (get Text-discrete token profiles.valid_tokens)
  unfolding validate_token strip_prefix
  validate_token-bearer token = ground arith

  asked :
      AreReachable
      → (token : UserId) (w : W)
      → request v user_id_of profile_api
          (dependency_not_found profile_api)
          (v.profile_service_url ++ codes "/v1/auth/validate")
          (some (v.uuid_text token.uuid))
          w
        ≡ (verdict token (entry token), w)
  unfolding request read_response
  asked mocks token w = elim (Option-cases (entry token)) [
    | inl e ↦
        rw
          (
            mocks.profile (v.uuid_text token.uuid) w,
            validate_token-bearer (v.uuid_text token.uuid),
            e,
          )
          refl
    | inr (name, e) ↦
        rw
          (
            mocks.profile (v.uuid_text token.uuid) w,
            validate_token-bearer (v.uuid_text token.uuid),
            e,
            mocks.parsed token.uuid,
          )
          refl
  ]

  -- Against the mocks, with a breaker that is not tripped, a token that is not cached is valid
  -- exactly if the profile mock lists its text, and its user is then the token itself, which is
  -- cached for 300 seconds; any other token is answered with `DependencyUnavailable`, though the
  -- service is up and has answered 401, and nothing is cached.
  pub validate_user-mock :
      AreReachable
      → (token : UserId) (s : Flight W) (w : W) → s.breaker.failures < s.breaker.threshold
      → get_cached_validation v (user_key v token) s.world ≡ (none, w)
      → let (r, s') = validate_user v token s in
        (r ≡ verdict token (entry token)) × (s'.world ≡ remembered token (entry token) w)
  unfolding validate_user call_profile_api
  validate_user-mock mocks token s w below miss =
      let answer = asked mocks token w in
      let passed =
        through_breaker-closed
          (request v user_id_of profile_api (dependency_not_found profile_api)
            (v.profile_service_url ++ codes "/v1/auth/validate") (some (v.uuid_text token.uuid)))
          (record s { world = w }) below in
      elim (Option-cases (entry token)) [
        | inl e ↦ ground (arith, miss, answer, passed, e)
        | inr (name, e) ↦ ground (arith, miss, answer, passed, e)
      ]

  -- what the list of the content mock makes of a content's validation
  abbrev content_verdict : ContentType → ContentId → Bool → Result DomainError Uuid
  content_verdict t i true = ok i.uuid
  content_verdict t i false = err (content_not_found t.as_str (v.uuid_text i.uuid))

  content_asked :
      AreReachable
      → (t : ContentType) (i : ContentId) (base_url service_name : Text) (w : W)
      → get Text-discrete t.as_str v.content_apis ≡ some base_url
      → request v content_id_of service_name
          (content_not_found t.as_str (v.uuid_text i.uuid))
          (base_url ++ (codes "/v1/" ++ (t.as_str ++ (codes "/" ++ v.uuid_text i.uuid))))
          none
          w
        ≡ (content_verdict t i (contains i.uuid contents.valid_content), w)
  unfolding request read_response check_content
  content_asked mocks t i base_url service_name w known =
      elim (Bool-cases (contains i.uuid contents.valid_content)) [
        | inl e ↦ rw (mocks.content t i base_url w known, e) refl
        | inr e ↦ rw (mocks.content t i base_url w known, e) refl
      ]

  -- Against the mocks, with a breaker that is not tripped, the validation of a content of a known
  -- type that is neither cached nor in flight does not wait, for any schedule: it succeeds with the
  -- content's identifier if the content mock lists that, whatever the type is, and else fails with
  -- `ContentNotFound`; then its key is not in flight.
  pub validate_content-mock :
      AreReachable
      → (schedule : List (Flight W → Flight W)) (t : ContentType) (i : ContentId) (base_url : Text)
        (s : Flight W) (w : W)
      → get Text-discrete t.as_str v.content_apis ≡ some base_url
      → s.breaker.failures < s.breaker.threshold
      → get_cached_validation v (content_key v t i) s.world ≡ (none, w)
      → get Text-discrete (content_key v t i) s.in_flight ≡ none
      → (s' : Flight W) × (validate_content v schedule t i s
          ≡ some (content_verdict t i (contains i.uuid contents.valid_content), s'))
        × (get Text-discrete (content_key v t i) s'.in_flight ≡ none)
  unfolding call_content_api call_at
  validate_content-mock mocks schedule t i base_url s w known below miss free =
      let (s', lands, released, others) = validate_content-lands v t i schedule s w miss free in
      let started = enter v (content_key v t i) (record s { world = w }) in
      let service_name = v.to_uppercase t.as_str ++ codes " API" in
      let passed =
        through_breaker-closed
          (request v content_id_of service_name (content_not_found t.as_str (v.uuid_text i.uuid))
            (base_url ++ (codes "/v1/" ++ (t.as_str ++ (codes "/" ++ v.uuid_text i.uuid)))) none)
          started below in
      let answer = content_asked mocks t i base_url service_name w known in
      let result : (call_content_api v t i started).0
          ≡ content_verdict t i (contains i.uuid contents.valid_content) =
        rw known (passed.0 ∙ ap (λ (p : Result DomainError Uuid × W). p.0) answer) in
      (s', lands ∙ ap (λ (r : Result DomainError Uuid). some (r, s')) result, released)
