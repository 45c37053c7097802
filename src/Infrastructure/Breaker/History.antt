-- ===== src/Infrastructure/Breaker/History.antt =====
-- The breaker against the history of its calls: the failures it counts are those since the last
-- success, and the stored state never decides anything. The calls are made one after another.
pub mod Streaks
use be_in_crypto_social_api.Prelude.{
  ℕ, suc, ◌+◌, ◌^◌, ◌≤◌, ◌<◌, ◌≡◌, refl, ◌∙◌, sym, ap, subst, ◌⊎◌, inl, List, [], ◌∷◌, length,
  arith, ltb, leb, if◌then◌else◌,
}
use be_in_crypto_social_api.Prelude.Exec.{Result, ok, err, Exec}
use be_in_crypto_social_api.Domain.Errors.{DomainError, dependency_unavailable}
use be_in_crypto_social_api.Infrastructure.Breaker.{
  State, closed, open_, half_open, CircuitBreaker, from_env, check_state, reset, record_failure,
  note_error, settle, admit, call,
}
use be_in_crypto_social_api.Infrastructure.Breaker.History.Streaks.{
  Outcome, success, other_error, unavailable, error_outcome, outcome_of, Streak, ideal_state, note,
  Tracks, after, note_error-after, after-kept, note-count-le, after-Tracks, check_state-settled,
  check_state-fixed, check_state-Tracks, check_state-ideal, same_answer,
}

-- A breaker of the given threshold and timeout agrees with the specification, beside equal worlds.
pub record Agrees {W : Type 0} (threshold timeout bound : ℕ) (p : CircuitBreaker × W)
    (q : Streak × W) : Type 0 where
  pub tracks : Tracks p.0 q.0
  pub world : p.1 ≡ q.1
  pub threshold_kept : p.0.threshold ≡ threshold
  pub timeout_kept : p.0.timeout ≡ timeout
  pub counted : q.0.count ≤ bound

module _ {W A : Type 0} (now : W → ℕ) where
  -- A call on the specification: the future runs, and its outcome is noted, unless it is refused.
  abbrev ideal_admit : State → Exec DomainError W A → Streak × W → Streak × W
  ideal_admit open_ f (s, w) = (s, w)
  ideal_admit closed f (s, w) = let (r, w') = f w in (note (outcome_of (now w') r) s, w')
  ideal_admit half_open f (s, w) = let (r, w') = f w in (note (outcome_of (now w') r) s, w')

  -- Calls one after another, through the breaker.
  unfoldable pub run : List (Exec DomainError W A) → CircuitBreaker × W → CircuitBreaker × W
  run [] p = p
  run (f ∷ fs) p = run fs (call now f p).1

  settle-after :
      (r : Result DomainError A) (w : W) (b : CircuitBreaker)
      → (settle now (r, w) b).1 ≡ (after (outcome_of (now w) r) b, w)
  unfolding settle
  settle-after (ok d) w b = refl
  settle-after (err e) w b = rw note_error-after refl

  module _ (threshold timeout : ℕ) where
    unfoldable pub ideal_call : Exec DomainError W A → Streak × W → Streak × W
    ideal_call f (s, w) = ideal_admit (ideal_state threshold timeout (now w) s) f (s, w)

    unfoldable pub ideal_run : List (Exec DomainError W A) → Streak × W → Streak × W
    ideal_run [] p = p
    ideal_run (f ∷ fs) p = ideal_run fs (ideal_call f p)

    settle-Agrees :
        (r : Result DomainError A) (w : W) (b : CircuitBreaker) (s : Streak) (bound : ℕ)
        → bound + 1 < 2 ^ 32
        → (b.threshold ≤ b.failures) ⊎ (b.state ≡ 0)
        → Tracks b s
        → b.threshold ≡ threshold
        → b.timeout ≡ timeout
        → s.count ≤ bound
        → Agrees threshold timeout
            (bound + 1)
            (settle now (r, w) b).1
            (note (outcome_of (now w) r) s, w)
    settle-Agrees r w b s bound room h t ht hm c = rw settle-after (record {
      tracks = after-Tracks b s (outcome_of (now w) r) (omega arith) h t;
      world = refl;
      threshold_kept = (after-kept (outcome_of (now w) r) b).0 ∙ ht;
      timeout_kept = (after-kept (outcome_of (now w) r) b).1 ∙ hm;
      counted = omega (arith, note-count-le (outcome_of (now w) r) s);
    })

    admit-Agrees :
        (st : State) (f : Exec DomainError W A) (b : CircuitBreaker) (s : Streak) (w : W)
        (bound : ℕ)
        → bound + 1 < 2 ^ 32
        → (b.threshold ≤ b.failures) ⊎ (b.state ≡ 0)
        → Agrees threshold timeout bound (b, w) (s, w)
        → Agrees threshold timeout (bound + 1) (admit now st f (b, w)).1 (ideal_admit st f (s, w))
    unfolding admit
    admit-Agrees open_ f b s w bound room h a = record {
      tracks = a.tracks;
      world = refl;
      threshold_kept = a.threshold_kept;
      timeout_kept = a.timeout_kept;
      counted = omega (arith, a.counted);
    }
    admit-Agrees closed f b s w bound room h a =
        let (r, w') = f w in
        settle-Agrees r w' b s bound room h a.tracks a.threshold_kept a.timeout_kept a.counted
    admit-Agrees half_open f b s w bound room h a =
        let (r, w') = f w in
        settle-Agrees r w' b s bound room h a.tracks a.threshold_kept a.timeout_kept a.counted

    call-Agrees :
        (f : Exec DomainError W A) (b : CircuitBreaker) (s : Streak) (w : W) (bound : ℕ)
        → bound + 1 < 2 ^ 32
        → Agrees threshold timeout bound (b, w) (s, w)
        → Agrees threshold timeout (bound + 1) (call now f (b, w)).1 (ideal_call f (s, w))
    unfolding call ideal_call
    call-Agrees f b s w bound room a =
        let b' = (check_state (now w) b).1 in
        subst
          (λ (st : State).
            Agrees threshold timeout (bound + 1) (admit now st f (b', w)).1 (ideal_call f (s, w)))
          (sym (same_answer (now w) b s a.tracks a.threshold_kept a.timeout_kept))
          (admit-Agrees (ideal_state threshold timeout (now w) s) f b' s w bound room
            (check_state-settled (now w) b s a.tracks)
            (record {
              tracks = check_state-Tracks (now w) b s a.tracks;
              world = refl;
              threshold_kept = (check_state-fixed (now w) b).0 ∙ a.threshold_kept;
              timeout_kept = (check_state-fixed (now w) b).1 ∙ a.timeout_kept;
              counted = a.counted;
            }))

    run-Agrees :
        (fs : List (Exec DomainError W A)) (p : CircuitBreaker × W) (q : Streak × W) (bound : ℕ)
        → bound + length fs + 1 < 2 ^ 32
        → Agrees threshold timeout bound p q
        → Agrees threshold timeout (bound + length fs) (run fs p) (ideal_run fs q)
    unfolding run ideal_run
    run-Agrees [] (b, w) (s, w') bound room a = record {
      tracks = a.tracks;
      world = a.world;
      threshold_kept = a.threshold_kept;
      timeout_kept = a.timeout_kept;
      counted = omega (arith, a.counted);
    }
    run-Agrees (f ∷ fs) (b, w) (s, w') bound room a =
        let step : Agrees threshold timeout (bound + 1) (call now f (b, w)).1
            (ideal_call f (s, w')) =
          subst
            (λ (v : W).
              Agrees threshold timeout (bound + 1) (call now f (b, w)).1 (ideal_call f (s, v)))
            a.world
            (call-Agrees f b s w bound (omega arith) (record {
              tracks = a.tracks;
              world = refl;
              threshold_kept = a.threshold_kept;
              timeout_kept = a.timeout_kept;
              counted = a.counted;
            })) in
        let shift : bound + 1 + length fs ≡ bound + suc (length fs) = omega arith in
        subst
          (λ (n : ℕ).
            Agrees threshold timeout n (run fs (call now f (b, w)).1)
              (ideal_run fs (ideal_call f (s, w'))))
          shift
          (run-Agrees fs (call now f (b, w)).1 (ideal_call f (s, w')) (bound + 1) (omega arith)
            step)

    -- From a new breaker, after any sequence of fewer than 2^32 - 1 calls one after another, the
    -- same futures have run as in the specification, which refuses calls only by its own count of
    -- the unavailable answers since the last success, and at any time `check_state` gives the
    -- state of the specification.
    pub run-ideal :
        (fs : List (Exec DomainError W A)) (w : W)
        → length fs + 1 < 2 ^ 32
        → let p = run fs (from_env threshold timeout, w) in
          let q = ideal_run fs (record { count = 0; last = 0 }, w) in
          (p.1 ≡ q.1) × ((t : ℕ) → (check_state t p.0).0 ≡ ideal_state threshold timeout t q.0)
    run-ideal fs w room =
        let start : Agrees threshold timeout 0 (from_env threshold timeout, w)
            (record { count = 0; last = 0 }, w) =
          unfold from_env in
          record {
            tracks = record { failures = refl; last = refl; stored = inl refl };
            world = refl;
            threshold_kept = refl;
            timeout_kept = refl;
            counted = omega arith;
          } in
        let a =
          run-Agrees fs (from_env threshold timeout, w) (record { count = 0; last = 0 }, w) 0
            (omega arith) start in
        (a.world, λ t. same_answer t _ _ a.tracks a.threshold_kept a.timeout_kept)
