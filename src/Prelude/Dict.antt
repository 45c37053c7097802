-- ===== src/Prelude/Dict.antt =====
-- Association lists: a map of the program (`HashMap`, `DashMap`, `DashSet`), where a key stands
-- at most once if it was put there by `insert`.
use mathlib.Core.Logic.{◌≢◌, ite}
use mathlib.Core.List.{List, [], ◌∷◌}
use mathlib.Core.Option.{Option, none, some}
use mathlib.Core.Path.{◌≡◌, refl}
use native.Mathlib.Omega.{arith}

module _ {ℓ} {K V : Type ℓ} (dec : Discrete K) where
  unfoldable pub get : K → List (K × V) → Option V
  get k [] = none
  get k ((j, v) ∷ m) = ite (dec j k) (some v) (get k m)

  unfoldable pub insert : K → V → List (K × V) → List (K × V)
  insert k v [] = (k, v) ∷ []
  insert k v ((j, w) ∷ m) = let rest = insert k v m in ite (dec j k) ((k, v) ∷ m) ((j, w) ∷ rest)

  unfoldable pub remove : K → List (K × V) → List (K × V)
  remove k [] = []
  remove k ((j, w) ∷ m) = let rest = remove k m in ite (dec j k) rest ((j, w) ∷ rest)

  pub get-insert_self : (k : K) (v : V) (m : List (K × V)) → get k (insert k v m) ≡ some v
  unfolding get insert
  get-insert_self k v [] = ground arith
  get-insert_self k v ((j, w) ∷ m) = ground (arith, get-insert_self k v m)

  pub get-insert_ne : (k q : K) (v : V) (m : List (K × V)) → k ≢ q → get q (insert k v m) ≡ get q m
  unfolding get insert
  get-insert_ne k q v [] h = ground arith
  get-insert_ne k q v ((j, w) ∷ m) h = ground (arith, get-insert_ne k q v m h)

  pub get-remove_self : (k : K) (m : List (K × V)) → get k (remove k m) ≡ none
  unfolding get remove
  get-remove_self k [] = refl
  get-remove_self k ((j, w) ∷ m) = ground (arith, get-remove_self k m)

  pub get-remove_ne : (k q : K) (m : List (K × V)) → k ≢ q → get q (remove k m) ≡ get q m
  unfolding get remove
  get-remove_ne k q [] h = refl
  get-remove_ne k q ((j, w) ∷ m) h = ground (arith, get-remove_ne k q m h)
