-- ===== src/Infrastructure/Breaker/Trips.antt =====
-- What one call through a tripped breaker does: it is refused during the timeout, and let through
-- after it, and then a success closes the breaker and a failure keeps it tripped.
use be_in_crypto_social_api.Prelude.{ℕ, ◌+◌, ◌^◌, ◌≤◌, ◌<◌, ◌≡◌, refl, Text, codes, arith}
use be_in_crypto_social_api.Prelude.Exec.{Result, ok, err, Exec}
use be_in_crypto_social_api.Domain.Errors.{DomainError, dependency_unavailable}
use be_in_crypto_social_api.Infrastructure.Breaker.{
  open_, half_open, CircuitBreaker, check_state, reset, record_failure, note_error, settle, admit,
  call,
}

module _ {W A : Type 0} (now : W → ℕ) where
  settle_lem :
      (r : Result DomainError A) (w : W) (b : CircuitBreaker) (n : ℕ)
      → b.failures ≡ n
      → n + 1 < 2 ^ 32
      → let (r', (b', w')) = settle now (r, w) b in
        (r' ≡ r)
        × (w' ≡ w)
        × ((d : A) → r ≡ ok d → b'.failures ≡ 0)
        × ((service : Text)
            → r ≡ err (dependency_unavailable service)
            → (b'.failures ≡ n + 1) × (b'.last_failure_time ≡ now w'))
  unfolding settle reset note_error record_failure
  settle_lem (ok d) w b n h room = (refl, refl, λ _ _. refl, λ _ e. cc)
  settle_lem (err (dependency_unavailable service)) w b n h room =
      (refl, refl, λ _ e. cc, λ _ _. (omega arith, refl))
  settle_lem (err e) w b n h room = (refl, refl, λ _ c. cc, λ _ c. cc)

module _ {W A : Type 0} (now : W → ℕ) (f : Exec DomainError W A) (b : CircuitBreaker) (w : W) where
  is_open :
      b.threshold ≤ b.failures
      → now w < b.timeout + b.last_failure_time
      → (check_state (now w) b).0 ≡ open_
  unfolding check_state
  is_open full early = ground arith

  is_half_open :
      b.threshold ≤ b.failures
      → b.timeout + b.last_failure_time ≤ now w
      → (check_state (now w) b).0 ≡ half_open
  unfolding check_state
  is_half_open full late = ground arith

  kept :
      b.threshold ≤ b.failures
      → let b' = (check_state (now w) b).1 in
        (b'.failures ≡ b.failures)
        × (b'.last_failure_time ≡ b.last_failure_time)
        × (b'.threshold ≡ b.threshold)
        × (b'.timeout ≡ b.timeout)
  unfolding check_state
  kept full = ground arith

  -- While the failures have reached the threshold and the timeout has not passed, a call is
  -- refused with `DependencyUnavailable`: the future does not run and the world stays as it is,
  -- and so do the counted failures and the time of the last one, so the next call is refused too.
  pub call-refused :
      b.threshold ≤ b.failures
      → now w < b.timeout + b.last_failure_time
      → let (r, (b', w')) = call now f (b, w) in
        (r ≡ err (dependency_unavailable (codes "todo")))
        × (w' ≡ w)
        × (b'.failures ≡ b.failures)
        × (b'.last_failure_time ≡ b.last_failure_time)
  unfolding call admit
  call-refused full early = ground (arith, is_open full early, kept full)

  -- After the timeout a tripped breaker lets a call through: its result and world are those of the
  -- future. On a success the failures are 0. If the service is unavailable again, the failure is
  -- counted and the timeout starts again from the time at which the future ended.
  pub call-probe :
      b.threshold ≤ b.failures
      → b.timeout + b.last_failure_time ≤ now w
      → b.failures + 1 < 2 ^ 32
      → let (r, (b', w')) = call now f (b, w) in
        (r ≡ (f w).0)
        × (w' ≡ (f w).1)
        × ((d : A) → (f w).0 ≡ ok d → b'.failures ≡ 0)
        × ((service : Text)
            → (f w).0 ≡ err (dependency_unavailable service)
            → (b'.failures ≡ b.failures + 1) × (b'.last_failure_time ≡ now w'))
  unfolding call admit
  call-probe full late room =
      rw (is_half_open full late) (settle_lem now (f w).0 (f w).1 _ b.failures (kept full).0 room)
