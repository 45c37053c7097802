-- ===== src/Api/App/Metrics.antt =====
-- The recorder of metrics in `create_app`, social_api/src/lib.rs: the process's one handle, and the
-- task that keeps it up until the shutdown. The crate's `install_recorder` and `run_upkeep` are
-- parameters; a clone of a handle is the handle.
use be_in_crypto_social_api.Prelude.{
  ℕ, zero, suc, ◌≡◌, refl, Bool, true, false, List, [], ◌∷◌, map, Option, none, some,
}
use be_in_crypto_social_api.Prelude.Options.{◌>>=◌}

-- The process: `METRICS_HANDLE`, a `OnceLock`, and all else.
pub record Process (H S : Type 0) : Type 0 where
  pub metrics_handle : Option H
  pub world : S

-- what the `tokio::select!` of the task takes
pub data Wake : Type 0 where
  cancelled tick : Wake

module _ {H S : Type 0} (install_recorder : S → Option H × S) where
  -- the `expect`, and the cell that it fills
  abbrev installed : Option H × S → Option (H × Process H S)
  installed (none, s) = none
  installed (some h, s) = some (h, record { metrics_handle = some h; world = s })

  abbrev get_or_init : Option H → S → Option (H × Process H S)
  get_or_init (some h) s = some (h, record { metrics_handle = some h; world = s })
  get_or_init none s = installed (install_recorder s)

  -- `recorder_handle`; a panic is `none`
  unfoldable pub recorder_handle : Process H S → Option (H × Process H S)
  recorder_handle p = get_or_init p.metrics_handle p.world

  -- Applications built one after another, each after what is done in between: a handle for each.
  unfoldable pub recorder_handles : List (S → S) → Process H S → Option (List H × Process H S)
  recorder_handles [] p = some ([], p)
  recorder_handles (others ∷ later) p = do
    (h, p₁) ← recorder_handle (record p { world = others p.world })
    (hs, p₂) ← recorder_handles later p₁
    some (h ∷ hs, p₂)

-- The task, with what it wakes for: whether it came to its end, and the state.
unfoldable pub upkeep : {H S : Type 0} → (H → S → S) → H → List Wake → S → Bool × S
upkeep run_upkeep h [] s = (false, s)
upkeep run_upkeep h (cancelled ∷ wakes) s = (true, s)
upkeep run_upkeep h (tick ∷ wakes) s = upkeep run_upkeep h wakes (run_upkeep h s)

abbrev pub run_all : {S : Type 0} → List (S → S) → S → S
run_all [] s = s
run_all (f ∷ fs) s = run_all fs (f s)

module _ {H S : Type 0} (install_recorder : S → Option H × S) where
  -- With the cell filled, every further application takes the handle of the cell, and none of them
  -- installs a recorder.
  recorder_handles-filled :
      (later : List (S → S)) (h : H) (s : S)
      → recorder_handles install_recorder later (record { metrics_handle = some h; world = s })
        ≡ some (map (λ _. h) later, record { metrics_handle = some h; world = run_all later s })
  unfolding recorder_handles recorder_handle
  recorder_handles-filled [] h s = refl
  recorder_handles-filled (others ∷ later) h s =
      rw (recorder_handles-filled later h (others s)) refl

  -- From an empty cell, where the recorder can be installed, every application takes the handle of
  -- the first, and the recorder is installed once, before the first.
  pub recorder_handles-once :
      (others : S → S) (later : List (S → S)) (h : H) (s s₁ : S)
      → install_recorder (others s) ≡ (some h, s₁)
      → recorder_handles install_recorder
          (others ∷ later)
          (record { metrics_handle = none; world = s })
        ≡ some
            (h ∷ map (λ _. h) later, record { metrics_handle = some h; world = run_all later s₁ })
  unfolding recorder_handles recorder_handle
  recorder_handles-once others later h s s₁ installs =
      rw (installs, recorder_handles-filled later h s₁) refl

abbrev runs : {A : Type 0} → (A → A) → ℕ → A → A
runs f zero a = a
runs f (suc n) a = runs f n (f a)

abbrev ticks : ℕ → List Wake → List Wake
ticks zero later = cancelled ∷ later
ticks (suc n) later = tick ∷ ticks n later

-- The task comes to its end with the first cancellation that it takes, after one upkeep for each
-- tick before it and none after it.
pub upkeep-ends :
    {H S : Type 0} (run_upkeep : H → S → S) (h : H) (n : ℕ) (later : List Wake) (s : S)
    → upkeep run_upkeep h (ticks n later) s ≡ (true, runs (run_upkeep h) n s)
unfolding upkeep
upkeep-ends run_upkeep h zero later s = refl
upkeep-ends run_upkeep h (suc n) later s = upkeep-ends run_upkeep h n later (run_upkeep h s)
