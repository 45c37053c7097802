-- ===== src/Prelude/Lists.antt =====
-- Lists measured by native numbers, and predicates on all elements.
use Prim.Native.Nat.{ℕ, zero, suc, ◌+◌, ◌-◌, ◌≤◌, ◌<◌, min}
use native.Mathlib.Nat.{zero-add, suc-add}
use mathlib.Core.Path.{◌≡◌, refl, ap}
use mathlib.Core.Bool.{Bool, true, false}
use mathlib.Core.List.{List, [], ◌∷◌, ◌++◌, map}
use mathlib.Core.Option.{Option, none, some}
use native.Mathlib.Omega.{arith}
use be_in_crypto_social_api.Prelude.Tests.{if◌then◌else◌}

module _ {ℓ} {A : Type ℓ} where
  abbrev pub length : List A → ℕ
  length [] = 0
  length (x ∷ xs) = suc (length xs)

  abbrev pub get_elem? : List A → ℕ → Option A
  get_elem? [] i = none
  get_elem? (x ∷ xs) zero = some x
  get_elem? (x ∷ xs) (suc i) = get_elem? xs i

  abbrev pub take : ℕ → List A → List A
  take zero xs = []
  take (suc n) [] = []
  take (suc n) (x ∷ xs) = x ∷ take n xs

  abbrev pub drop : ℕ → List A → List A
  drop zero xs = xs
  drop (suc n) [] = []
  drop (suc n) (x ∷ xs) = drop n xs

  -- The elements that pass a Boolean test.
  abbrev pub select : (A → Bool) → List A → List A
  select p [] = []
  select p (x ∷ xs) = let rest = select p xs in if p x then x ∷ rest else rest

  abbrev pub is_empty : List A → Bool
  is_empty [] = true
  is_empty (x ∷ xs) = false

  pub length-append : (xs ys : List A) → length (xs ++ ys) ≡ length xs + length ys
  length-append [] ys = omega arith
  length-append (x ∷ xs) ys = omega (arith, length-append xs ys)

  pub length-take : (n : ℕ) (xs : List A) → length (take n xs) ≡ min n (length xs)
  length-take zero xs = omega arith
  length-take (suc n) [] = omega arith
  length-take (suc n) (x ∷ xs) = omega (arith, length-take n xs)

  pub take_all : (n : ℕ) (xs : List A) → length xs ≤ n → take n xs ≡ xs
  take_all zero [] h = refl
  take_all zero (x ∷ xs) h = absurd (omega arith)
  take_all (suc n) [] h = refl
  take_all (suc n) (x ∷ xs) h = ap (◌∷◌ x) (take_all n xs (omega arith))

  pub take_append_drop : (n : ℕ) (xs : List A) → take n xs ++ drop n xs ≡ xs
  take_append_drop zero xs = refl
  take_append_drop (suc n) [] = refl
  take_append_drop (suc n) (x ∷ xs) = ap (◌∷◌ x) (take_append_drop n xs)

  pub drop-drop : (k n : ℕ) (xs : List A) → drop n (drop k xs) ≡ drop (k + n) xs
  drop-drop zero n xs = rw zero-add refl
  drop-drop (suc k) zero [] = rw suc-add refl
  drop-drop (suc k) (suc n) [] = rw suc-add refl
  drop-drop (suc k) n (x ∷ xs) = rw suc-add (drop-drop k n xs)

  pub length-drop : (n : ℕ) (xs : List A) → length (drop n xs) ≡ length xs - n
  length-drop zero xs = omega arith
  length-drop (suc n) [] = omega arith
  length-drop (suc n) (x ∷ xs) = omega (arith, length-drop n xs)

  -- the element at the end of a beginning
  pub get_elem?-some : (xs : List A) (n : ℕ) → n < length xs → (x : A) × (get_elem? xs n ≡ some x)
  get_elem?-some [] n h = absurd (omega arith)
  get_elem?-some (x ∷ xs) zero h = (x, refl)
  get_elem?-some (x ∷ xs) (suc n) h = get_elem?-some xs n (omega arith)

  pub get_elem?-take : (n m : ℕ) (xs : List A) → n < m → get_elem? (take m xs) n ≡ get_elem? xs n
  get_elem?-take n zero xs h = absurd (omega arith)
  get_elem?-take n (suc m) [] h = refl
  get_elem?-take zero (suc m) (x ∷ xs) h = refl
  get_elem?-take (suc n) (suc m) (x ∷ xs) h = get_elem?-take n m xs (omega arith)

  pub get_elem?-drop : (k n : ℕ) (xs : List A) → get_elem? (drop k xs) n ≡ get_elem? xs (k + n)
  get_elem?-drop zero n xs = rw zero-add refl
  get_elem?-drop (suc k) n [] = refl
  get_elem?-drop (suc k) n (x ∷ xs) = rw suc-add (get_elem?-drop k n xs)

  pub take-take : (n m : ℕ) (xs : List A) → n ≤ m → take n (take m xs) ≡ take n xs
  take-take zero m xs h = refl
  take-take (suc n) zero xs h = absurd (omega arith)
  take-take (suc n) (suc m) [] h = refl
  take-take (suc n) (suc m) (x ∷ xs) h = ap (◌∷◌ x) (take-take n m xs (omega arith))

  pub length-select-le : (p : A → Bool) (xs : List A) → length (select p xs) ≤ length xs
  length-select-le p [] = omega arith
  length-select-le p (x ∷ xs) = ground (arith, length-select-le p xs)

  abbrev pub All {κ} : (A → Type κ) → List A → Type κ
  All P [] = Unit
  All P (x ∷ xs) = P x × All P xs

module _ {ℓ κ} {A : Type ℓ} {B : Type κ} where
  pub length-map : (f : A → B) (xs : List A) → length (map f xs) ≡ length xs
  length-map f [] = refl
  length-map f (x ∷ xs) = ap suc (length-map f xs)

  pub get_elem?-map :
      (f : A → B) (xs : List A) (n : ℕ) (x : A)
      → get_elem? xs n ≡ some x
      → get_elem? (map f xs) n ≡ some (f x)
  get_elem?-map f [] n x h = absurd (ground (arith, h))
  get_elem?-map f (y ∷ ys) zero x h = ground (arith, h)
  get_elem?-map f (y ∷ ys) (suc n) x h = get_elem?-map f ys n x h

module _ {ℓ} {A : Type ℓ} where
  -- the element that was put at the end
  pub get_elem?-length : (xs : List A) (x : A) → get_elem? (xs ++ x ∷ []) (length xs) ≡ some x
  get_elem?-length [] x = refl
  get_elem?-length (y ∷ ys) x = get_elem?-length ys x

  -- Two equal texts whose ends have one length have equal beginnings and equal ends.
  pub append-cancel :
      (xs xs' ys ys' : List A)
      → length ys ≡ length ys'
      → (xs ++ ys) ≡ (xs' ++ ys')
      → (xs ≡ xs') × (ys ≡ ys')
  append-cancel [] [] ys ys' n h = (refl, h)
  append-cancel [] (x ∷ xs') ys ys' n h = absurd (omega (arith, ap length h, length-append xs' ys'))
  append-cancel (x ∷ xs) [] ys ys' n h = absurd (omega (arith, ap length h, length-append xs ys))
  append-cancel (x ∷ xs) (x' ∷ xs') ys ys' n h =
      let rest = append-cancel xs xs' ys ys' n (cc) in (cc, rest.1)
