-- ===== src/Infrastructure/Breaker/Tally.antt =====
-- The failures of overlapping calls while none succeeds: not one is lost.
use be_in_crypto_social_api.Prelude.{
  ℕ, suc, ◌+◌, ◌^◌, ◌≤◌, ◌<◌, ◌≡◌, ◌≢◌, refl, ◌⊎◌, inl, List, All, length, false, arith,
}
use be_in_crypto_social_api.Infrastructure.Breaker.{
  closed, state_of_u8, same_state, CircuitBreaker, from_env, final_state, reset,
}
use be_in_crypto_social_api.Infrastructure.Breaker.Races.{
  grown, failures_in, failures_in-le, grown-failures_in, updated,
}
use be_in_crypto_social_api.Infrastructure.Breaker.Interleaving.{
  Task, read_state, read_time, decided, stored, Event, silent, succeeded, failed, Move, load_state,
  load_time, load_failures, unchanged, store_state, store_zero, store_none, refuse, run_closed,
  run_half_open, succeed, fail_otherwise, count_failure, store_time, Run, start, later,
}

-- A task has read another state than `closed` only where `threshold` failures are recorded, and
-- does not change such a state back to `closed`.
abbrev Steady : ℕ → ℕ → Task → Type 0
Steady threshold k (read_state old) = (old ≡ closed) ⊎ (threshold ≤ k)
Steady threshold k (read_time old last) = (old ≡ closed) ⊎ (threshold ≤ k)
Steady threshold k (decided old final) =
    ((old ≡ closed) × (final ≡ closed)) ⊎ ((threshold ≤ k) × (same_state final closed ≡ false))
Steady threshold k (stored final) = (threshold ≤ k) × (same_state final closed ≡ false)
Steady threshold k _ = Unit

record Exact (threshold k : ℕ) (b : CircuitBreaker) (tasks : ℕ → Task) : Type 0 where
  same_threshold : b.threshold ≡ threshold
  exact : b.failures ≡ k
  state_stored : (b.state ≡ 0) ⊎ (threshold ≤ k)
  steady : (i : ℕ) → Steady threshold k (tasks i)

Steady-later : (threshold k : ℕ) (p : Task) → Steady threshold k p → Steady threshold (suc k) p
Steady-later threshold k (read_state old) h = ground (arith, h)
Steady-later threshold k (read_time old last) h = ground (arith, h)
Steady-later threshold k (decided old final) h = ground (arith, h)
Steady-later threshold k (stored final) h = ground (arith, h)
Steady-later threshold k _ h = tt

Steady-grown :
    (threshold k : ℕ) (e : Event) (p : Task) → Steady threshold k p → Steady threshold (grown e k) p
Steady-grown threshold k silent p h = h
Steady-grown threshold k succeeded p h = h
Steady-grown threshold k failed p h = Steady-later threshold k p h

record Stays (threshold k : ℕ) (b : CircuitBreaker) (p : Task) : Type 0 where
  same_threshold : b.threshold ≡ threshold
  exact : b.failures ≡ k
  state_stored : (b.state ≡ 0) ⊎ (threshold ≤ k)
  steady : Steady threshold k p

abbrev stays :
    {threshold k : ℕ} {b : CircuitBreaker} {p : Task}
    → b.threshold ≡ threshold
    → b.failures ≡ k
    → (b.state ≡ 0) ⊎ (threshold ≤ k)
    → Steady threshold k p
    → Stays threshold k b p
stays t r s h = record { same_threshold = t; exact = r; state_stored = s; steady = h }

Move-Stays :
    {threshold k : ℕ} {b b' : CircuitBreaker} {p p' : Task} {e : Event}
    → Move b p e b' p'
    → e ≢ succeeded
    → k + 1 < 2 ^ 32
    → b.threshold ≡ threshold
    → b.failures ≡ k
    → (b.state ≡ 0) ⊎ (threshold ≤ k)
    → Steady threshold k p
    → Stays threshold (grown e k) b' p'
unfolding final_state reset state_of_u8
Move-Stays load_state ne fits t r s h = stays t r s (ground (arith, s))
Move-Stays load_time ne fits t r s h = stays t r s h
Move-Stays (load_failures now) ne fits t r s h = stays t r s (ground (arith, t, r, h))
Move-Stays (unchanged e) ne fits t r s h = stays t r s tt
Move-Stays (store_state e) ne fits t r s h = stays t r (ground (arith, e, h)) (ground (arith, e, h))
Move-Stays store_zero ne fits t r s h = absurd (ground (arith, h))
Move-Stays (store_none e) ne fits t r s h = stays t r s tt
Move-Stays refuse ne fits t r s h = stays t r s tt
Move-Stays run_closed ne fits t r s h = stays t r s tt
Move-Stays run_half_open ne fits t r s h = stays t r s tt
Move-Stays succeed ne fits t r s h = absurd (ne refl)
Move-Stays fail_otherwise ne fits t r s h = stays t r s tt
Move-Stays count_failure ne fits t r s h = stays t (ground (arith, r, fits)) (ground (arith, s)) tt
Move-Stays (store_time now) ne fits t r s h = stays t r s tt

module _ {threshold timeout : ℕ} where
  Run-Exact :
      {es : List Event} {b : CircuitBreaker} {tasks : ℕ → Task}
      → Run threshold timeout es b tasks
      → All (λ e. e ≢ succeeded) es
      → length es < 2 ^ 32
      → Exact threshold (failures_in es) b tasks
  unfolding from_env
  Run-Exact start none fits = record {
    same_threshold = refl;
    exact = refl;
    state_stored = inl refl;
    steady = λ i. tt;
  }
  Run-Exact (later {es} {tasks} {e} {p} run i m) (ne, nes) fits =
      let h = Run-Exact run nes (omega arith) in
      let moved =
        Move-Stays m ne (omega (arith, failures_in-le es)) h.same_threshold h.exact h.state_stored
          (h.steady i) in
      rw (← grown-failures_in e es) (record {
        same_threshold = moved.same_threshold;
        exact = moved.exact;
        state_stored = moved.state_stored;
        steady =
            updated tasks i p (Steady-grown threshold (failures_in es) e) moved.steady h.steady;
      })

  -- However the calls overlap, while none of them succeeds every failure that is recorded stays
  -- counted; so once `threshold` of them are, no task that reads the counter finds the breaker
  -- closed, whatever the time is and whatever time of the last failure the task has read.
  pub failures-counted :
      {es : List Event} {b : CircuitBreaker} {tasks : ℕ → Task}
      → Run threshold timeout es b tasks
      → All (λ e. e ≢ succeeded) es
      → length es < 2 ^ 32
      → (b.failures ≡ failures_in es)
        × ((now last : ℕ)
            → threshold ≤ failures_in es
            → final_state now (record b { last_failure_time = last }) ≢ closed)
  unfolding final_state
  failures-counted run none fits =
      let h = Run-Exact run none fits in
      (h.exact, λ now last full. ground (arith, h.exact, h.same_threshold))
