-- ===== src/Tests/Overlaps.antt =====
-- A breaker of threshold 1 and timeout 30: task 0 finds its service unavailable, task 1 comes next.
use be_in_crypto_social_api.Prelude.{ℕ, ℕ_discrete, ◌≤◌, ◌≡◌, ◌≢◌, refl, List, arith}
use be_in_crypto_social_api.Infrastructure.Breaker.{
  closed, CircuitBreaker, from_env, final_state, state_of_u8,
}
use be_in_crypto_social_api.Infrastructure.Breaker.Interleaving.{
  Task, Event, load_state, load_time, load_failures, unchanged, store_state, store_none, run_closed,
  count_failure, store_time, Run, start, later,
}
use be_in_crypto_social_api.Infrastructure.Breaker.Races.{failures_in, refuse-tripped}
use be_in_crypto_social_api.Infrastructure.Breaker.Tally.{failures-counted}

record Reached : Type 0 where
  events : List Event
  breaker : CircuitBreaker
  tasks : ℕ → Task
  run : Run 1 30 events breaker tasks

calling : Reached
unfolding from_env final_state state_of_u8 ℕ_discrete
calling = record {
  events = _;
  breaker = _;
  tasks = _;
  run =
      later
        (later (later (later (later start 0 load_state) 0 load_time) 0 (load_failures 100)) 0
          (unchanged refl))
        0 run_closed;
}

refusing : Reached
unfolding calling from_env final_state state_of_u8 ℕ_discrete
refusing = record {
  events = _;
  breaker = _;
  tasks = _;
  run =
      later
        (later
          (later
            (later
              (later (later (later calling.run 0 count_failure) 0 (store_time 101)) 1 load_state) 1
              load_time)
            1 (load_failures 110))
          1 (store_state refl))
        1 (store_none refl);
}

refuse-tripped_example :
    (refusing.breaker.failures ≤ failures_in refusing.events) × (1 ≤ failures_in refusing.events)
unfolding refusing calling from_env final_state state_of_u8 ℕ_discrete
refuse-tripped_example = refuse-tripped 1 refusing.run (omega arith) refl

failures-counted_example :
    (refusing.breaker.failures ≡ failures_in refusing.events)
    × ((now last : ℕ)
        → 1 ≤ failures_in refusing.events
        → final_state now (record refusing.breaker { last_failure_time = last }) ≢ closed)
unfolding refusing calling from_env final_state state_of_u8 ℕ_discrete
failures-counted_example =
    failures-counted refusing.run
      (
        (λ e. cc),
        (
          (λ e. cc),
          (
            (λ e. cc),
            (
              (λ e. cc),
              (
                (λ e. cc),
                (
                  (λ e. cc),
                  ((λ e. cc), ((λ e. cc), ((λ e. cc), ((λ e. cc), ((λ e. cc), ((λ e. cc), tt)))))),
                ),
              ),
            ),
          ),
        ),
      )
      (omega arith)
