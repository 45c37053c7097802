-- ===== src/Infrastructure/Breaker/Interleaving.antt =====
-- social_api/src/infrastructure/clients/circuit_breaker.rs with calls that overlap: each task is
-- somewhere in `call`, and a step is one access of one task to the atomics. A task reads the clock
-- whenever it does, so the times are left open.
use be_in_crypto_social_api.Prelude.{
  ℕ, ℕ_discrete, ◌+◌, ◌%◌, ◌^◌, ◌≡◌, refl, inl, inr, List, [], ◌∷◌, true, false, if◌then◌else◌, ite,
  Bool-cases,
}
use be_in_crypto_social_api.Infrastructure.Breaker.{
  State, closed, open_, half_open, state_of_u8, as_u8, same_state, CircuitBreaker, from_env,
  final_state, check_state, reset,
}

-- Where a task stands, with what it has read: before `call`, in `check_state` after each of its
-- accesses, behind it with the state that it returned, in `f.await`, and in `record_failure`.
pub data Task : Type 0 where
  idle : Task
  read_state : (old_state : State) → Task
  read_time : (old_state : State) (last_error : ℕ) → Task
  decided : (old_state final_state : State) → Task
  stored : (final_state : State) → Task
  checked : (final_state : State) → Task
  awaiting : Task
  recording : Task

-- What a step adds to the history of the breaker.
pub data Event : Type 0 where
  silent succeeded failed : Event

pub data Move (b : CircuitBreaker) : Task → Event → CircuitBreaker → Task → Type 0 where
  load_state : Move b idle silent b (read_state (state_of_u8 b.state))
  load_time : {old : State} → Move b (read_state old) silent b (read_time old b.last_failure_time)
  load_failures :
      {old : State} {last_error : ℕ} (now : ℕ)
      → Move b
          (read_time old last_error)
          silent
          b
          (decided old (final_state now (record b { last_failure_time = last_error })))
  unchanged :
      {old final : State}
      → same_state old final ≡ true
      → Move b (decided old final) silent b (checked final)
  store_state :
      {old final : State}
      → same_state old final ≡ false
      → Move b (decided old final) silent (record b { state = as_u8 final }) (stored final)
  store_zero : Move b (stored closed) silent (record b { failures = 0 }) (checked closed)
  store_none :
      {final : State}
      → same_state final closed ≡ false
      → Move b (stored final) silent b (checked final)
  refuse : Move b (checked open_) silent b idle
  run_closed : Move b (checked closed) silent b awaiting
  run_half_open : Move b (checked half_open) silent b awaiting
  succeed : Move b awaiting succeeded (reset b) idle
  fail_otherwise : Move b awaiting silent b idle
  count_failure :
      Move b awaiting failed (record b { failures = (b.failures + 1) % 2 ^ 32 }) recording
  store_time : (now : ℕ) → Move b recording silent (record b { last_failure_time = now }) idle

abbrev pub update : (ℕ → Task) → ℕ → Task → ℕ → Task
update tasks i p j = ite (ℕ_discrete i j) p (tasks j)

-- The states of a new breaker and its tasks, by the events that have led to them, the last first.
pub data Run (threshold timeout : ℕ) : List Event → CircuitBreaker → (ℕ → Task) → Type 0 where
  start : Run threshold timeout [] (from_env threshold timeout) (λ i. idle)
  later :
      {es : List Event} {b : CircuitBreaker} {tasks : ℕ → Task} {e : Event} {b' : CircuitBreaker}
      {p : Task}
      → Run threshold timeout es b tasks
      → (i : ℕ) → Move b (tasks i) e b' p
      → Run threshold timeout (e ∷ es) b' (update tasks i p)

-- Steps of one task while no other moves.
pub data Alone : CircuitBreaker → Task → CircuitBreaker → Task → Type 0 where
  stay : {b : CircuitBreaker} {p : Task} → Alone b p b p
  go :
      {b b' b'' : CircuitBreaker} {p p' p'' : Task} {e : Event}
      → Move b p e b' p'
      → Alone b' p' b'' p''
      → Alone b p b'' p''

abbrev one : {b b' : CircuitBreaker} {p p' : Task} {e : Event} → Move b p e b' p' → Alone b p b' p'
one m = go m stay

written :
    (final : State) (b : CircuitBreaker)
    → Alone b
        (stored final)
        (if same_state final closed then record b { failures = 0 } else b)
        (checked final)
written closed b = one store_zero
written open_ b = one (store_none refl)
written half_open b = one (store_none refl)

settled :
    (old final : State) (b : CircuitBreaker)
    → let stored = record b { state = as_u8 final } in
      Alone b
        (decided old final)
        (if same_state old final
          then b
          else if same_state final closed
          then record stored { failures = 0 }
          else stored)
        (checked final)
settled old final b = elim (Bool-cases (same_state old final)) [
  | inl e ↦ rw e (one (unchanged e))
  | inr e ↦ rw e (go (store_state e) (written final (record b { state = as_u8 final })))
]

-- A task that is not interrupted does what `check_state` of the sequential model says.
pub check_state-Alone :
    (now : ℕ) (b : CircuitBreaker)
    → let (final, b') = check_state now b in Alone b idle b' (checked final)
unfolding check_state
check_state-Alone now b =
    go load_state
      (go load_time (go (load_failures now) (settled (state_of_u8 b.state) (final_state now b) b)))
