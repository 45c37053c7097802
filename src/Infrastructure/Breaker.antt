-- ===== src/Infrastructure/Breaker.antt =====
-- social_api/src/infrastructure/clients/circuit_breaker.rs. The atomic fields are the fields of a
-- record: calls are modelled one after another. Times are Unix seconds, at or after 1970, and the
-- timeout is not negative, so the signed test is written with the sum on the other side.
pub mod History
pub mod Trips
pub mod Interleaving
pub mod Races
pub mod Tally
pub mod Leaks
use be_in_crypto_social_api.Prelude.{
  ℕ, zero, suc, ◌+◌, ◌%◌, ◌^◌, Bool, true, false, codes, ltb, leb, if◌then◌else◌,
}
use be_in_crypto_social_api.Prelude.Exec.{Result, ok, err, Exec}
use be_in_crypto_social_api.Domain.Errors.{DomainError, dependency_unavailable}

pub data State : Type 0 where
  closed open_ half_open : State

-- `From<u8> for State`
unfoldable pub state_of_u8 : ℕ → State
state_of_u8 zero = closed
state_of_u8 (suc zero) = open_
state_of_u8 (suc (suc n)) = half_open

-- `final_state as u8`
abbrev pub as_u8 : State → ℕ
as_u8 closed = 0
as_u8 open_ = 1
as_u8 half_open = 2

-- `PartialEq for State`
abbrev pub same_state : State → State → Bool
same_state closed closed = true
same_state open_ open_ = true
same_state half_open half_open = true
same_state _ _ = false

pub record CircuitBreaker : Type 0 where
  pub threshold : ℕ  -- u32
  pub timeout : ℕ  -- i64
  pub failures : ℕ  -- AtomicU32
  pub last_failure_time : ℕ  -- AtomicI64
  pub state : ℕ  -- AtomicU8

-- the breaker that `from_env` builds from the two parsed variables
unfoldable pub from_env : ℕ → ℕ → CircuitBreaker
from_env threshold timeout = record {
  threshold = threshold;
  timeout = timeout;
  failures = 0;
  last_failure_time = 0;
  state = 0;
}

-- the `match` of `check_state`
unfoldable pub final_state : ℕ → CircuitBreaker → State
final_state now b =
    if ltb b.failures b.threshold
    then closed
    else if leb (b.timeout + b.last_failure_time) now
    then half_open
    else open_

unfoldable pub check_state : ℕ → CircuitBreaker → State × CircuitBreaker
unfolding final_state state_of_u8
check_state now b =
    let old = state_of_u8 b.state in
    let final = final_state now b in
    let stored = record b { state = as_u8 final } in
    (
      final,
      if same_state old final
          then b
          else if same_state final closed
          then record stored { failures = 0 }
          else stored,
    )

unfoldable pub reset : CircuitBreaker → CircuitBreaker
reset b = record b { failures = 0 }

-- `fetch_add` wraps
unfoldable pub record_failure : ℕ → CircuitBreaker → CircuitBreaker
record_failure now b = record b { failures = (b.failures + 1) % 2 ^ 32; last_failure_time = now }

-- the error arms of `call`: only an unavailable service counts as a failure
unfoldable pub note_error : ℕ → DomainError → CircuitBreaker → CircuitBreaker
unfolding record_failure
note_error now (dependency_unavailable _) b = record_failure now b
note_error now _ b = b

module _ {W : Type 0} (now : W → ℕ) where
  -- the arm of `call` that has awaited `f`
  unfoldable pub settle :
      {A : Type 0}
      → Result DomainError A × W
      → CircuitBreaker
      → Result DomainError A × (CircuitBreaker × W)
  unfolding reset note_error
  settle (ok d, w) b = (ok d, (reset b, w))
  settle (err e, w) b = (err e, (note_error (now w) e b, w))

  -- the `match` of `call` on the state
  unfoldable pub admit :
      {A : Type 0} → State → Exec DomainError W A → Exec DomainError (CircuitBreaker × W) A
  unfolding settle
  admit open_ f p = (err (dependency_unavailable (codes "todo")), p)
  admit closed f (b, w) = settle (f w) b
  admit half_open f (b, w) = settle (f w) b

  unfoldable pub call :
      {A : Type 0} → Exec DomainError W A → Exec DomainError (CircuitBreaker × W) A
  call f (b, w) = let (s, b') = check_state (now w) b in admit s f (b', w)
