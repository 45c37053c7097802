-- ===== src/Infrastructure/Validator/Denials.antt =====
-- What tokens that the profile service rejects do to the breaker that all calls share.
use be_in_crypto_social_api.Prelude.{
  ℕ, suc, ◌+◌, ◌^◌, ◌≤◌, ◌<◌, ◌≡◌, ◌⊎◌, inl, inr, refl, Text, codes, List, [], ◌∷◌, ◌++◌, All, ap,
  sym, subst, ◌∙◌, get, Text-discrete, length, none, some, arith,
}
use be_in_crypto_social_api.Prelude.Exec.{Result, ok, err, Exec}
use be_in_crypto_social_api.Domain.Errors.{
  DomainError, dependency_unavailable, dependency_not_found,
}
use be_in_crypto_social_api.Domain.Model.{Uuid, UserId, ContentType, ContentId}
use be_in_crypto_social_api.Infrastructure.Breaker.{
  State, open_, closed, half_open, CircuitBreaker, from_env, check_state, note_error,
  record_failure, settle, admit, call,
}
use be_in_crypto_social_api.Infrastructure.Validator.Caching.{validate_content-refused}
use be_in_crypto_social_api.Infrastructure.Validator.{
  content_key, validate_content, HttpExternalValidator, Flight, Response, profile_api,
  get_cached_validation, user_key, validate_user, request, user_id_of, read_response,
  through_breaker, call_profile_api,
}

-- A breaker that has seen `k` failures and no success since it was made.
record Failing (threshold k : ℕ) (b : CircuitBreaker) : Type 0 where
  threshold_kept : b.threshold ≡ threshold
  room : b.failures ≤ k
  counted : (k ≤ b.failures) ⊎ (threshold ≤ b.failures)
  stored : (b.state ≡ 0) ⊎ (threshold ≤ b.failures)

Failing-record_failure :
    (threshold k now t : ℕ) (b : CircuitBreaker)
    → k + 1 < 2 ^ 32
    → Failing threshold k b
    → Failing threshold (k + 1) (record_failure t (check_state now b).1)
unfolding check_state record_failure
Failing-record_failure threshold k now t b fits h = record {
  threshold_kept = ground (arith, h.threshold_kept);
  room = ground (arith, h.room);
  counted = ground (arith, h.threshold_kept, h.room, h.counted, h.stored);
  stored = ground (arith, h.threshold_kept, h.room, h.counted, h.stored);
}

Failing-open :
    (threshold k now : ℕ) (b : CircuitBreaker)
    → (check_state now b).0 ≡ open_
    → Failing threshold k b
    → Failing threshold (k + 1) (check_state now b).1
unfolding check_state
Failing-open threshold k now b refuses h = record {
  threshold_kept = ground (arith, h.threshold_kept);
  room = ground (arith, h.room);
  counted = ground (arith, refuses, h.threshold_kept, h.counted);
  stored = ground (arith, refuses, h.threshold_kept, h.stored);
}

module _ {W A : Type 0} (now : W → ℕ) (f : Exec DomainError W A) (w : W) (service : Text)
    (fails : (f w).0 ≡ err (dependency_unavailable service)) where
  admit_lem :
      (threshold k : ℕ) (b : CircuitBreaker) (st : State)
      → k + 1 < 2 ^ 32
      → (check_state (now w) b).0 ≡ st
      → Failing threshold k b
      → let (r, (b', w')) = admit now st f ((check_state (now w) b).1, w) in
        (((s : Text) × (r ≡ err (dependency_unavailable s))) × Failing threshold (k + 1) b')
        × ((w' ≡ w) ⊎ (w' ≡ (f w).1))
  unfolding admit settle note_error
  admit_lem threshold k b open_ fits is h =
      (((codes "todo", refl), Failing-open threshold k (now w) b is h), inl refl)
  admit_lem threshold k b closed fits is h = rw fails (
    ((service, refl), Failing-record_failure threshold k (now w) (now (f w).1) b fits h),
    inr refl,
  )
  admit_lem threshold k b half_open fits is h = rw fails (
    ((service, refl), Failing-record_failure threshold k (now w) (now (f w).1) b fits h),
    inr refl,
  )

  -- a call whose future finds the service unavailable
  call_lem :
      (threshold k : ℕ) (b : CircuitBreaker)
      → k + 1 < 2 ^ 32
      → Failing threshold k b
      → let (r, (b', w')) = call now f (b, w) in
        (((s : Text) × (r ≡ err (dependency_unavailable s))) × Failing threshold (k + 1) b')
        × ((w' ≡ w) ⊎ (w' ≡ (f w).1))
  unfolding call
  call_lem threshold k b fits h = admit_lem threshold k b _ fits refl h

module _ {W : Type 0} (v : HttpExternalValidator W) where
  abbrev ask : UserId → W → Result Text Response × W
  ask token w =
      v.send (v.profile_service_url ++ codes "/v1/auth/validate") (some (v.uuid_text token.uuid)) w

  -- In the worlds of `P` the token is not cached and the profile service answers it with 401, and
  -- the look at the cache and the request stay in `P`.
  abbrev pub IsRejected : (W → Type 0) → UserId → Type 0
  IsRejected P token =
      (w : W)
      → P w
      → let (cached, w₁) = get_cached_validation v (user_key v token) w in
        let (r, w₂) = ask token w₁ in
        (cached ≡ none)
        × ((response : Response) × (r ≡ ok response) × (response.status ≡ 401))
        × P w₁
        × P w₂

  -- the requests' tokens, one after another
  unfoldable pub validate_users : List UserId → Flight W → Flight W
  validate_users [] s = s
  validate_users (token ∷ tokens) s = validate_users tokens (validate_user v token s).1

  abbrev asking : UserId → Exec DomainError W Uuid
  asking token =
      request v user_id_of profile_api (dependency_not_found profile_api)
        (v.profile_service_url ++ codes "/v1/auth/validate") (some (v.uuid_text token.uuid))

  asking_lem :
      (token : UserId) (w : W) (response : Response)
      → (ask token w).0 ≡ ok response
      → response.status ≡ 401
      → ((asking token w).0 ≡ err (dependency_unavailable profile_api))
        × ((asking token w).1 ≡ (ask token w).1)
  unfolding request read_response
  asking_lem token w response sent status = rw sent (rw status (refl, refl))

  module _ (P : W → Type 0) (threshold : ℕ) where
    validate_user-rejected :
        (k : ℕ) (token : UserId) (s : Flight W)
        → IsRejected P token
        → k + 1 < 2 ^ 32
        → P s.world
        → Failing threshold k s.breaker
        → let s' = (validate_user v token s).1 in Failing threshold (k + 1) s'.breaker × P s'.world
    unfolding validate_user call_profile_api through_breaker
    validate_user-rejected k token s rejected fits here h =
        let w = (get_cached_validation v (user_key v token) s.world).1 in
        let (miss, (response, sent, status), here₁, here₂) = rejected s.world here in
        let (failed, after) = asking_lem token w response sent status in
        let ((answer, h'), world) =
          call_lem v.seconds (asking token) w profile_api failed threshold k s.breaker fits h in
        rw (miss, answer.1)
          (
            h',
            elim world [
              | inl same ↦ subst P (sym same) here₁
              | inr asked ↦ subst P (sym (asked ∙ after)) here₂
            ],
          )

    validate_users-rejected :
        (k : ℕ) (tokens : List UserId) (s : Flight W)
        → All (IsRejected P) tokens
        → k + length tokens < 2 ^ 32
        → P s.world
        → Failing threshold k s.breaker
        → Failing threshold (k + length tokens) (validate_users tokens s).breaker
    unfolding validate_users
    validate_users-rejected k [] s rejected fits here h =
        let same : k + 0 ≡ k = omega arith in rw same h
    validate_users-rejected k (token ∷ tokens) s (r, rejected) fits here h =
        let (h', here') = validate_user-rejected k token s r (omega arith) here h in
        let shift : k + suc (length tokens) ≡ k + 1 + length tokens = omega arith in
        rw shift (validate_users-rejected (k + 1) tokens _ rejected (omega arith) here' h')

  module _ (P : W → Type 0) (threshold timeout : ℕ) (tokens : List UserId) (s : Flight W)
      (here : P s.world) (new : s.breaker ≡ from_env threshold timeout)
      (rejected : All (IsRejected P) tokens) (enough : threshold ≤ length tokens)
      (fits : length tokens < 2 ^ 32) where
    tripped :
        (validate_users tokens s).breaker.threshold ≤ (validate_users tokens s).breaker.failures
    unfolding from_env
    tripped =
        let start : Failing threshold 0 s.breaker = record {
          threshold_kept = ap (λ (b : CircuitBreaker). b.threshold) new;
          room = omega (arith, ap (λ (b : CircuitBreaker). b.failures) new);
          counted = inl (omega arith);
          stored = inl (ap (λ (b : CircuitBreaker). b.state) new);
        } in
        let h = validate_users-rejected P threshold 0 tokens s rejected (omega arith) here start in
        ground (arith, h.threshold_kept, h.counted)

    -- Tokens that the profile service answers with 401, as many as the threshold of a new breaker,
    -- each of another request and none cached, trip the breaker: until the timeout after the last
    -- of them has passed, no content is validated, and `DependencyUnavailable` is returned for each
    -- known type whose validation is not cached or in flight.
    pub rejected_tokens-trip :
        (schedule : List (Flight W → Flight W)) (t : ContentType) (i : ContentId) (url : Text)
        (w : W)
        → get_cached_validation v (content_key v t i) (validate_users tokens s).world ≡ (none, w)
        → get Text-discrete (content_key v t i) (validate_users tokens s).in_flight ≡ none
        → get Text-discrete t.as_str v.content_apis ≡ some url
        → v.seconds w
          < (validate_users tokens s).breaker.timeout
            + (validate_users tokens s).breaker.last_failure_time
        → (s' : Flight W) × (validate_content v schedule t i (validate_users tokens s)
            ≡ some (err (dependency_unavailable (codes "todo")), s'))
          × (s'.world ≡ w)
    rejected_tokens-trip schedule t i url w miss free known early =
        validate_content-refused v t i schedule (validate_users tokens s) w url miss free known
          tripped early
