-- ===== src/Infrastructure/Breaker/History/Streaks.antt =====
-- The specification of the breaker, social_api/src/infrastructure/clients/circuit_breaker.rs: its state
-- from the count of unavailable answers since the last success, and what one step does to both.
use be_in_crypto_social_api.Prelude.{
  ℕ, ◌+◌, ◌^◌, ◌≤◌, ◌<◌, ◌≡◌, refl, ◌∙◌, ap, ◌⊎◌, arith, ltb, leb, if◌then◌else◌,
}
use be_in_crypto_social_api.Prelude.Exec.{Result, ok, err}
use be_in_crypto_social_api.Domain.Errors.{DomainError, dependency_unavailable}
use be_in_crypto_social_api.Infrastructure.Breaker.{
  State, closed, open_, half_open, CircuitBreaker, check_state, reset, record_failure, note_error,
}

-- How an awaited future ended: with a success, with an unavailable service at a time, or with
-- another error.
pub data Outcome : Type 0 where
  success other_error : Outcome
  unavailable : (time : ℕ) → Outcome

abbrev pub error_outcome : ℕ → DomainError → Outcome
error_outcome t (dependency_unavailable _) = unavailable t
error_outcome t _ = other_error

abbrev pub outcome_of : {A : Type 0} → ℕ → Result DomainError A → Outcome
outcome_of t (ok _) = success
outcome_of t (err e) = error_outcome t e

-- The specification's state: unavailable answers since the last success, and the last one's time.
pub record Streak : Type 0 where
  pub count : ℕ
  pub last : ℕ

abbrev pub ideal_state : ℕ → ℕ → ℕ → Streak → State
ideal_state threshold timeout now s =
    if ltb s.count threshold
    then closed
    else if leb (timeout + s.last) now
    then half_open
    else open_

abbrev pub note : Outcome → Streak → Streak
note success s = record s { count = 0 }
note other_error s = s
note (unavailable t) s = record { count = s.count + 1; last = t }

pub record Tracks (b : CircuitBreaker) (s : Streak) : Type 0 where
  pub failures : b.failures ≡ s.count
  pub last : b.last_failure_time ≡ s.last
  pub stored : (b.state ≡ 0) ⊎ ((b.failures ≡ 0) ⊎ (b.threshold ≤ b.failures))

abbrev pub after : Outcome → CircuitBreaker → CircuitBreaker
after success b = reset b
after other_error b = b
after (unavailable t) b = record_failure t b

pub note_error-after :
    (t : ℕ) (e : DomainError) (b : CircuitBreaker) → note_error t e b ≡ after (error_outcome t e) b
unfolding note_error
note_error-after t (dependency_unavailable _) b = refl
note_error-after t _ b = refl

pub after-kept :
    (o : Outcome) (b : CircuitBreaker)
    → ((after o b).threshold ≡ b.threshold) × ((after o b).timeout ≡ b.timeout)
unfolding reset record_failure
after-kept success b = (refl, refl)
after-kept other_error b = (refl, refl)
after-kept (unavailable t) b = (refl, refl)

pub note-count-le : (o : Outcome) (s : Streak) → (note o s).count ≤ s.count + 1
note-count-le success s = omega arith
note-count-le other_error s = omega arith
note-count-le (unavailable t) s = omega arith

pub after-Tracks :
    (b : CircuitBreaker) (s : Streak) (o : Outcome)
    → s.count + 1 < 2 ^ 32
    → b.threshold ≤ b.failures ⊎ b.state ≡ 0
    → Tracks b s
    → Tracks (after o b) (note o s)
unfolding reset record_failure
after-Tracks b s success room h t = ground arith
after-Tracks b s other_error room h t = t
after-Tracks b s (unavailable time) room h t = ground arith

pub check_state-settled :
    (now : ℕ) (b : CircuitBreaker) (s : Streak)
    → Tracks b s
    → let b' = (check_state now b).1 in (b'.threshold ≤ b'.failures) ⊎ (b'.state ≡ 0)
unfolding check_state
check_state-settled now b s t = ground arith

pub check_state-fixed :
    (now : ℕ) (b : CircuitBreaker)
    → let b' = (check_state now b).1 in (b'.threshold ≡ b.threshold) × (b'.timeout ≡ b.timeout)
unfolding check_state
check_state-fixed now b = ground arith

pub check_state-Tracks :
    (now : ℕ) (b : CircuitBreaker) (s : Streak) → Tracks b s → Tracks (check_state now b).1 s
unfolding check_state
check_state-Tracks now b s t = ground arith

pub check_state-ideal :
    (now : ℕ) (b : CircuitBreaker) (s : Streak)
    → Tracks b s
    → (check_state now b).0 ≡ ideal_state b.threshold b.timeout now s
unfolding check_state
check_state-ideal now b s t = ground arith

pub same_answer :
    {threshold timeout : ℕ} (t : ℕ) (b : CircuitBreaker) (s : Streak)
    → Tracks b s
    → b.threshold ≡ threshold
    → b.timeout ≡ timeout
    → (check_state t b).0 ≡ ideal_state threshold timeout t s
same_answer {threshold} {timeout} t b s h ht hm =
    check_state-ideal t b s h
    ∙ ap (λ (n : ℕ). ideal_state n b.timeout t s) ht
    ∙ ap (λ (n : ℕ). ideal_state threshold n t s) hm
