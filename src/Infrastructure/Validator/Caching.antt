-- ===== src/Infrastructure/Validator/Caching.antt =====
-- What a flight and a tripped breaker do to a validation.
use be_in_crypto_social_api.Prelude.{
  ◌+◌, ◌≤◌, ◌<◌, Text, Text-discrete, codes, ◌≡◌, ◌≢◌, ap, ◌∙◌, List, [], ◌∷◌, none, some, get,
  get-remove_self, get-remove_ne, get-insert_ne, arith,
}
use be_in_crypto_social_api.Prelude.Exec.{Result, err}
use be_in_crypto_social_api.Domain.Errors.{DomainError, dependency_unavailable}
use be_in_crypto_social_api.Domain.Model.{Uuid, ContentId, ContentType}
use be_in_crypto_social_api.Infrastructure.Breaker.Trips.{call-refused}
use be_in_crypto_social_api.Infrastructure.Validator.{
  HttpExternalValidator, Flight, get_cached_validation, content_key, enter, through_breaker,
  call_content_api, store_content, fetch_content, try_content, validate_content,
}

module _ {W : Type 0} (v : HttpExternalValidator W) (t : ContentType) (i : ContentId) where
  abbrev started : Flight W → W → Flight W
  started s w = enter v (content_key v t i) (record s { world = w })

  call_content_api-in_flight : (s : Flight W) → (call_content_api v t i s).1.in_flight ≡ s.in_flight
  unfolding call_content_api through_breaker
  call_content_api-in_flight s = ground arith

  fetched :
      (schedule : List (Flight W → Flight W)) (s : Flight W) (w : W)
      → get_cached_validation v (content_key v t i) s.world ≡ (none, w)
      → get Text-discrete (content_key v t i) s.in_flight ≡ none
      → validate_content v schedule t i s
        ≡ some ((call_content_api v t i (started s w)).0, (fetch_content v t i (started s w)).1)
  unfolding validate_content try_content fetch_content
  fetched [] s w miss free = ground (arith, miss, free)
  fetched (others ∷ schedule) s w miss free = ground (arith, miss, free)

  refused_call :
      (s : Flight W) (url : Text)
      → get Text-discrete t.as_str v.content_apis ≡ some url
      → s.breaker.threshold ≤ s.breaker.failures
      → v.seconds s.world < s.breaker.timeout + s.breaker.last_failure_time
      → let (r, s') = call_content_api v t i s in
        (r ≡ err (dependency_unavailable (codes "todo"))) × (s'.world ≡ s.world)
  unfolding call_content_api through_breaker
  refused_call s url known full early = rw known (
      let refused = call-refused v.seconds _ s.breaker s.world full early in (refused.0, refused.1))

  -- A validation of a key that is neither cached nor in flight does not wait, for any schedule. It
  -- returns what the call of the content service returns; then its key is not in flight, and every
  -- other key is in flight if it was before.
  pub validate_content-lands :
      (schedule : List (Flight W → Flight W)) (s : Flight W) (w : W)
      → get_cached_validation v (content_key v t i) s.world ≡ (none, w)
      → get Text-discrete (content_key v t i) s.in_flight ≡ none
      → (s' : Flight W) × (validate_content v schedule t i s
          ≡ some ((call_content_api v t i (started s w)).0, s'))
        × (get Text-discrete (content_key v t i) s'.in_flight ≡ none)
        × ((q : Text)
            → content_key v t i ≢ q
            → get Text-discrete q s'.in_flight ≡ get Text-discrete q s.in_flight)
  validate_content-lands schedule s w miss free =
      let key = content_key v t i in
      (
        (fetch_content v t i (started s w)).1,
        fetched schedule s w miss free,
        unfold fetch_content in get-remove_self Text-discrete key _,
        λ q ne.
            unfold fetch_content in
            get-remove_ne Text-discrete key q _ ne
            ∙ ap (get Text-discrete q) (call_content_api-in_flight (started s w))
            ∙ get-insert_ne Text-discrete key q tt s.in_flight ne,
      )

  -- While the breaker refuses calls, a validation that is not cached fails with
  -- `DependencyUnavailable`, sends no request, and caches nothing.
  pub validate_content-refused :
      (schedule : List (Flight W → Flight W)) (s : Flight W) (w : W) (url : Text)
      → get_cached_validation v (content_key v t i) s.world ≡ (none, w)
      → get Text-discrete (content_key v t i) s.in_flight ≡ none
      → get Text-discrete t.as_str v.content_apis ≡ some url
      → s.breaker.threshold ≤ s.breaker.failures
      → v.seconds w < s.breaker.timeout + s.breaker.last_failure_time
      → (s' : Flight W) × (validate_content v schedule t i s
          ≡ some (err (dependency_unavailable (codes "todo")), s'))
        × (s'.world ≡ w)
  validate_content-refused schedule s w url miss free known full early =
      let key = content_key v t i in
      let refused = refused_call (started s w) url known full early in
      (
        (fetch_content v t i (started s w)).1,
        fetched schedule s w miss free
            ∙ ap (λ (r : Result DomainError Uuid). some (r, (fetch_content v t i (started s w)).1))
                refused.0,
        unfold fetch_content store_content in (rw refused.0 refused.1),
      )
