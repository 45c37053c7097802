-- ===== src/Infrastructure/Breaker/Leaks.antt =====
-- Where overlapping calls differ from calls one after another: the two stores of `record_failure`.
use be_in_crypto_social_api.Prelude.{ℕ, ◌≡◌, ◌≢◌, List}
use be_in_crypto_social_api.Infrastructure.Breaker.{CircuitBreaker}
use be_in_crypto_social_api.Infrastructure.Breaker.Interleaving.{Task, Event, Run}

module _ (threshold timeout : ℕ) where
  -- The state after a run that went on, where only the task `j` has moved.
  record Further (j : ℕ) (tasks : ℕ → Task) (b' : CircuitBreaker) (p' : Task) : Type 0 where
    events : List Event
    tasks' : ℕ → Task
    run : Run threshold timeout events b' tasks'
    arrived : tasks' j ≡ p'
    others : (i : ℕ) → i ≢ j → tasks' i ≡ tasks i
