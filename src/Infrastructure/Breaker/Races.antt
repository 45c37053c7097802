-- ===== src/Infrastructure/Breaker/Races.antt =====
-- What holds of the breaker in every interleaving of its calls.
use be_in_crypto_social_api.Prelude.{
  ℕ, ℕ_discrete, suc, ◌+◌, ◌^◌, ◌≤◌, ◌<◌, ◌≡◌, refl, subst, ◌⊎◌, List, [], ◌∷◌, length, ite, arith,
}
use be_in_crypto_social_api.Infrastructure.Breaker.{
  State, closed, open_, CircuitBreaker, from_env, final_state, reset,
}
use be_in_crypto_social_api.Infrastructure.Breaker.Interleaving.{
  Task, decided, stored, checked, Event, silent, succeeded, failed, Move, load_state, load_time,
  load_failures, unchanged, store_state, store_zero, store_none, refuse, run_closed, run_half_open,
  succeed, fail_otherwise, count_failure, store_time, Run, start, later, update,
}

abbrev pub failures_in : List Event → ℕ
failures_in [] = 0
failures_in (failed ∷ es) = suc (failures_in es)
failures_in (_ ∷ es) = failures_in es

-- What a task has read, where `k` failures have been recorded: it has decided for `open_` or
-- `half_open` only at `threshold` of them.
abbrev Judged : ℕ → ℕ → State → Type 0
Judged threshold k final = (final ≡ closed) ⊎ (threshold ≤ k)

abbrev Sound : ℕ → ℕ → Task → Type 0
Sound threshold k (decided old final) = Judged threshold k final
Sound threshold k (stored final) = Judged threshold k final
Sound threshold k (checked final) = Judged threshold k final
Sound threshold k _ = Unit

record Counted (threshold k : ℕ) (b : CircuitBreaker) (tasks : ℕ → Task) : Type 0 where
  same_threshold : b.threshold ≡ threshold
  room : b.failures ≤ k
  sound : (i : ℕ) → Sound threshold k (tasks i)

Sound-later : (threshold k : ℕ) (p : Task) → Sound threshold k p → Sound threshold (suc k) p
Sound-later threshold k (decided old final) h = ground (arith, h)
Sound-later threshold k (stored final) h = ground (arith, h)
Sound-later threshold k (checked final) h = ground (arith, h)
Sound-later threshold k _ h = tt

abbrev pub grown : Event → ℕ → ℕ
grown failed k = suc k
grown _ k = k

Move-Sound :
    {threshold k : ℕ} {b b' : CircuitBreaker} {p p' : Task} {e : Event}
    → Move b p e b' p'
    → k + 1 < 2 ^ 32
    → b.threshold ≡ threshold
    → b.failures ≤ k
    → Sound threshold k p
    → (b'.threshold ≡ threshold) × (b'.failures ≤ grown e k) × Sound threshold (grown e k) p'
unfolding final_state reset
Move-Sound load_state fits t r h = (t, r, tt)
Move-Sound load_time fits t r h = (t, r, tt)
Move-Sound (load_failures now) fits t r h = (t, r, ground (arith, t, r))
Move-Sound (unchanged e) fits t r h = (t, r, h)
Move-Sound (store_state e) fits t r h = (t, r, h)
Move-Sound store_zero fits t r h = (t, omega arith, h)
Move-Sound (store_none e) fits t r h = (t, r, h)
Move-Sound refuse fits t r h = (t, r, tt)
Move-Sound run_closed fits t r h = (t, r, tt)
Move-Sound run_half_open fits t r h = (t, r, tt)
Move-Sound succeed fits t r h = (t, omega arith, tt)
Move-Sound fail_otherwise fits t r h = (t, r, tt)
Move-Sound count_failure fits t r h = (t, ground (arith, r, fits), tt)
Move-Sound (store_time now) fits t r h = (t, r, tt)

pub grown-failures_in :
    (e : Event) (es : List Event) → grown e (failures_in es) ≡ failures_in (e ∷ es)
grown-failures_in silent es = refl
grown-failures_in succeeded es = refl
grown-failures_in failed es = refl

pub failures_in-le : (es : List Event) → failures_in es ≤ length es
failures_in-le [] = omega arith
failures_in-le (silent ∷ es) = omega (arith, failures_in-le es)
failures_in-le (succeeded ∷ es) = omega (arith, failures_in-le es)
failures_in-le (failed ∷ es) = omega (arith, failures_in-le es)

Sound-grown :
    (threshold k : ℕ) (e : Event) (p : Task) → Sound threshold k p → Sound threshold (grown e k) p
Sound-grown threshold k silent p h = h
Sound-grown threshold k succeeded p h = h
Sound-grown threshold k failed p h = Sound-later threshold k p h

-- a predicate on every task, where one has moved
pub updated :
    {P Q : Task → Type 0} (tasks : ℕ → Task) (i : ℕ) (p : Task)
    → ((q : Task) → P q → Q q)
    → Q p
    → ((j : ℕ) → P (tasks j))
    → (j : ℕ) → Q (update tasks i p j)
updated {Q} tasks i p keep moved h j = elim (ℕ_discrete i j) as (λ d. Q (ite d p (tasks j))) [
  | yes _ ↦ moved
  | no _ ↦ keep (tasks j) (h j)
]

module _ {threshold timeout : ℕ} where
  Run-Counted :
      {es : List Event} {b : CircuitBreaker} {tasks : ℕ → Task}
      → Run threshold timeout es b tasks
      → length es < 2 ^ 32
      → Counted threshold (failures_in es) b tasks
  unfolding from_env
  Run-Counted start fits = record { same_threshold = refl; room = omega arith; sound = λ i. tt }
  Run-Counted (later {es} {tasks} {e} {p} run i m) fits =
      let h = Run-Counted run (omega arith) in
      let (t, r, moved) =
        Move-Sound m (omega (arith, failures_in-le es)) h.same_threshold h.room (h.sound i) in
      rw (← grown-failures_in e es) (record {
        same_threshold = t;
        room = r;
        sound = updated tasks i p (Sound-grown threshold (failures_in es) e) moved h.sound;
      })

  -- However the calls overlap, the breaker refuses one only if at least `threshold` calls have found
  -- their service unavailable: the failures that it counts are never more than those recorded.
  pub refuse-tripped :
      {es : List Event} {b : CircuitBreaker} {tasks : ℕ → Task} (i : ℕ)
      → Run threshold timeout es b tasks
      → length es < 2 ^ 32
      → tasks i ≡ checked open_
      → (b.failures ≤ failures_in es) × (threshold ≤ failures_in es)
  refuse-tripped {es} i run fits refused =
      let h = Run-Counted run fits in
      let judged = subst (Sound threshold (failures_in es)) refused (h.sound i) in
      (h.room, ground (arith, judged))
