-- ===== src/Prelude/Exec.antt =====
-- Asynchronous methods that may fail, run against a world: what an `await` of the program returns,
-- and the world after it. What was changed before an error stays changed.
use mathlib.Core.Option.{Option, none, some}
use mathlib.Core.Path.{◌≡◌, refl}
use mathlib.Core.Logic.{◌⊎◌, inl, inr}

pub data Result {ℓ κ} (E : Type ℓ) (A : Type κ) : Type (ℓ ⊔ κ) where
  ok : A → Result E A
  err : E → Result E A

pub Result-cases :
    {E A : Type 0} (r : Result E A) → ((a : A) × (r ≡ ok a)) ⊎ ((e : E) × (r ≡ err e))
Result-cases (ok a) = inl (a, refl)
Result-cases (err e) = inr (e, refl)

module _ {ℓ} {E : Type ℓ} where
  -- `.ok()`
  abbrev pub to_option {κ} : {A : Type κ} → Result E A → Option A
  to_option (ok a) = some a
  to_option (err e) = none

  -- `.unwrap_or(d)`
  abbrev pub unwrap_or {κ} : {A : Type κ} → Result E A → A → A
  unwrap_or (ok a) d = a
  unwrap_or (err e) d = d

abbrev pub Exec : Type 0 → Type 0 → Type 0 → Type 0
Exec E W A = W → Result E A × W

module _ {E W : Type 0} where
  abbrev pub pure : {A : Type 0} → A → Exec E W A
  pure a w = (ok a, w)

  abbrev pub throw : {A : Type 0} → E → Exec E W A
  throw e w = (err e, w)

  abbrev pub lift : {A : Type 0} → Result E A → Exec E W A
  lift r w = (r, w)

  abbrev pub gets : {A : Type 0} → (W → A) → Exec E W A
  gets f w = (ok (f w), w)

  abbrev pub modify : (W → W) → Exec E W (Unit {0})
  modify f w = (ok tt, f w)

  -- A call whose error the caller inspects or drops, in place of `?`.
  abbrev pub attempt : {A : Type 0} → Exec E W A → Exec E W (Result E A)
  attempt m w = let (r, w') = m w in (ok r, w')

  abbrev pub continue : {A B : Type 0} → Result E A → (A → Exec E W B) → Exec E W B
  continue (ok a) f w = f a w
  continue (err e) f w = (err e, w)

  infixl 5 ◌>>=◌ ◌>>◌
  abbrev pub ◌>>=◌ : {A B : Type 0} → Exec E W A → (A → Exec E W B) → Exec E W B
  ◌>>=◌ m f w = let (r, w') = m w in continue r f w'

  abbrev pub ◌>>◌ : {A B : Type 0} → Exec E W A → Exec E W B → Exec E W B
  m >> n = m >>= λ _. n
