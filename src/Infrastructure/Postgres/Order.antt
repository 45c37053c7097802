-- ===== src/Infrastructure/Postgres/Order.antt =====
-- `ORDER BY created_at DESC, id DESC` over rows of distinct identifiers, the primary key.
use be_in_crypto_social_api.Prelude.{
  ℕ, zero, suc, ◌≡◌, ◌≢◌, refl, sym, ap, ◌∙◌, subst, List, [], ◌∷◌, All, select, drop, get_elem?,
  Bool, true, false, some, Bool-cases, inl, inr, arith,
}
use mathlib.Core.List.{Perm}
use mathlib.Core.List.Perm
use be_in_crypto_social_api.Domain.Model.{Like}
use be_in_crypto_social_api.Infrastructure.Postgres.Sql.{before, insert_desc, order_desc}

-- the first row stands after the second one in the order
abbrev pub is_older : Like → Like → Bool
is_older l m = before l.created_at l.id m.created_at m.id

abbrev pub IsOlder : Like → Like → Type 0
IsOlder l m = is_older l m ≡ true

abbrev pub IsDesc : List Like → Type 0
IsDesc [] = Unit
IsDesc (m ∷ ms) = All (λ l. IsOlder l m) ms × IsDesc ms

-- `PRIMARY KEY`
abbrev pub HasDistinctIds : List Like → Type 0
HasDistinctIds [] = Unit
HasDistinctIds (m ∷ ms) = All (λ l. l.id ≢ m.id) ms × HasDistinctIds ms

IsOlder-trans : (a b c : Like) → IsOlder a b → IsOlder b c → IsOlder a c
unfolding before
IsOlder-trans a b c h k = ground arith

IsOlder-or_newer : (a b : Like) → a.id ≢ b.id → is_older a b ≡ false → IsOlder b a
unfolding before
IsOlder-or_newer a b ne h = ground arith

not_older : (a b : Like) → IsOlder b a → is_older a b ≡ false
unfolding before
not_older a b h = ground arith

not_older_self : (a : Like) → is_older a a ≡ false
unfolding before
not_older_self a = ground arith

All-weaken : (P Q : Like → Type 0) (xs : List Like) → ((x : Like) → P x → Q x) → All P xs → All Q xs
All-weaken P Q [] f h = tt
All-weaken P Q (x ∷ xs) f (p, h) = (f x p, All-weaken P Q xs f h)

All-select : (P : Like → Type 0) (p : Like → Bool) (xs : List Like) → All P xs → All P (select p xs)
All-select P p [] h = tt
All-select P p (x ∷ xs) (q, h) = elim (Bool-cases (p x)) [
  | inl keep ↦ rw keep (q, All-select P p xs h)
  | inr drop_it ↦ rw drop_it (All-select P p xs h)
]

All-insert_desc :
    (P : Like → Type 0) (l : Like) (ms : List Like) → P l → All P ms → All P (insert_desc l ms)
unfolding insert_desc
All-insert_desc P l [] p h = (p, tt)
All-insert_desc P l (m ∷ ms) p (q, h) = elim (Bool-cases (is_older l m)) [
  | inl later ↦ rw later (q, All-insert_desc P l ms p h)
  | inr first ↦ rw first (p, (q, h))
]

pub All-order_desc : (P : Like → Type 0) (ls : List Like) → All P ls → All P (order_desc ls)
unfolding order_desc
All-order_desc P [] h = tt
All-order_desc P (l ∷ ls) (p, h) = All-insert_desc P l (order_desc ls) p (All-order_desc P ls h)

insert_desc-IsDesc :
    (l : Like) (ms : List Like) → All (λ m. m.id ≢ l.id) ms → IsDesc ms → IsDesc (insert_desc l ms)
unfolding insert_desc
insert_desc-IsDesc l [] ne d = (tt, tt)
insert_desc-IsDesc l (m ∷ ms) (ne, nes) (olds, d) = elim (Bool-cases (is_older l m)) [
  | inl later ↦
      rw later (All-insert_desc (λ x. IsOlder x m) l ms later olds, insert_desc-IsDesc l ms nes d)
  | inr first ↦
      let here : IsOlder m l = IsOlder-or_newer l m (λ e. ne (sym e)) first in
      rw first (
        (
          here,
          All-weaken (λ x. IsOlder x m) (λ x. IsOlder x l) ms (λ x h. IsOlder-trans x m l h here)
              olds,
        ),
        (olds, d),
      )
]

pub order_desc-IsDesc : (ls : List Like) → HasDistinctIds ls → IsDesc (order_desc ls)
unfolding order_desc
order_desc-IsDesc [] h = tt
order_desc-IsDesc (l ∷ ls) (ne, h) =
    insert_desc-IsDesc l (order_desc ls) (All-order_desc (λ m. m.id ≢ l.id) ls ne)
      (order_desc-IsDesc ls h)

insert_desc-Perm : (l : Like) (ms : List Like) → Perm (insert_desc l ms) (l ∷ ms)
unfolding insert_desc
insert_desc-Perm l [] = Perm.refl (l ∷ [])
insert_desc-Perm l (m ∷ ms) = elim (Bool-cases (is_older l m)) [
  | inl later ↦ rw later (Perm.trans (Perm.cons m (insert_desc-Perm l ms)) (Perm.swap l m ms))
  | inr first ↦ rw first (Perm.refl (l ∷ m ∷ ms))
]

pub order_desc-Perm : (ls : List Like) → Perm (order_desc ls) ls
unfolding order_desc
order_desc-Perm [] = Perm.refl []
order_desc-Perm (l ∷ ls) =
    Perm.trans (insert_desc-Perm l (order_desc ls)) (Perm.cons l (order_desc-Perm ls))

pub select-HasDistinctIds :
    (p : Like → Bool) (ls : List Like) → HasDistinctIds ls → HasDistinctIds (select p ls)
select-HasDistinctIds p [] h = tt
select-HasDistinctIds p (l ∷ ls) (ne, h) = elim (Bool-cases (p l)) [
  | inl keep ↦ rw keep (All-select (λ m. m.id ≢ l.id) p ls ne, select-HasDistinctIds p ls h)
  | inr drop_it ↦ rw drop_it (select-HasDistinctIds p ls h)
]

-- a test on the rows can be made before or after they are put in order
insert_desc-front :
    (p : Like → Bool) (l : Like) (ms : List Like)
    → All (λ x. IsOlder x l) ms
    → insert_desc l (select p ms) ≡ l ∷ select p ms
unfolding insert_desc
insert_desc-front p l [] h = refl
insert_desc-front p l (m ∷ ms) (old, h) = elim (Bool-cases (p m)) [
  | inl keep ↦ rw keep (rw (not_older l m old) refl)
  | inr drop_it ↦ rw drop_it (insert_desc-front p l ms h)
]

select-insert_desc_keep :
    (p : Like → Bool) (l : Like) (ms : List Like)
    → p l ≡ true
    → All (λ m. m.id ≢ l.id) ms
    → IsDesc ms
    → select p (insert_desc l ms) ≡ insert_desc l (select p ms)
unfolding insert_desc
select-insert_desc_keep p l [] keep ne d = rw keep refl
select-insert_desc_keep p l (m ∷ ms) keep (ne, nes) (olds, d) = elim (Bool-cases (is_older l m)) [
  | inl later ↦
      let ih = select-insert_desc_keep p l ms keep nes d in
      elim (Bool-cases (p m)) [
        | inl stay ↦ rw (later, stay) (rw later (ap (◌∷◌ m) ih))
        | inr leave ↦ rw (later, leave) ih
      ]
  | inr first ↦
      let here : IsOlder m l = IsOlder-or_newer l m (λ e. ne (sym e)) first in
      rw first (
        rw keep (
          sym (
            insert_desc-front p l (m ∷ ms) (
              here,
              All-weaken (λ x. IsOlder x m) (λ x. IsOlder x l) ms
                  (λ x h. IsOlder-trans x m l h here) olds,
            ))))
]

select-insert_desc_drop :
    (p : Like → Bool) (l : Like) (ms : List Like)
    → p l ≡ false
    → select p (insert_desc l ms) ≡ select p ms
unfolding insert_desc
select-insert_desc_drop p l [] out = rw out refl
select-insert_desc_drop p l (m ∷ ms) out = elim (Bool-cases (is_older l m)) [
  | inl later ↦ elim (Bool-cases (p m)) [
    | inl stay ↦ rw (later, stay) (ap (◌∷◌ m) (select-insert_desc_drop p l ms out))
    | inr leave ↦ rw (later, leave) (select-insert_desc_drop p l ms out)
  ]
  | inr first ↦ rw first (rw out refl)
]

pub select-order_desc :
    (p : Like → Bool) (ls : List Like)
    → HasDistinctIds ls
    → select p (order_desc ls) ≡ order_desc (select p ls)
unfolding order_desc
select-order_desc p [] h = refl
select-order_desc p (l ∷ ls) (ne, h) = elim (Bool-cases (p l)) [
  | inl keep ↦
      select-insert_desc_keep p l (order_desc ls) keep (All-order_desc (λ m. m.id ≢ l.id) ls ne)
        (order_desc-IsDesc ls h)
      ∙ rw keep (ap (insert_desc l) (select-order_desc p ls h))
  | inr out ↦ select-insert_desc_drop p l (order_desc ls) out ∙ rw out (select-order_desc p ls h)
]

select_of_All : (p : Like → Bool) (ms : List Like) → All (λ m. p m ≡ true) ms → select p ms ≡ ms
select_of_All p [] h = refl
select_of_All p (m ∷ ms) (e, h) = rw e (ap (◌∷◌ m) (select_of_All p ms h))

IsOlder-at :
    (ms : List Like) (n : ℕ) (l m : Like)
    → All (λ x. IsOlder x m) ms
    → get_elem? ms n ≡ some l
    → IsOlder l m
IsOlder-at [] n l m h e = cc
IsOlder-at (x ∷ ms) zero l m (old, h) e = let same : x ≡ l = cc in rw (← same) old
IsOlder-at (x ∷ ms) (suc n) l m (old, h) e = IsOlder-at ms n l m h e

-- In descending rows, the rows older than the one at a position are those behind it.
pub select_older-drop :
    (ms : List Like) (n : ℕ) (l : Like)
    → IsDesc ms
    → get_elem? ms n ≡ some l
    → select (λ x. is_older x l) ms ≡ drop (suc n) ms
select_older-drop [] n l d e = cc
select_older-drop (m ∷ ms) zero l (olds, d) e =
    let same : m ≡ l = cc in
    subst (λ (a : Like). select (λ x. is_older x a) (m ∷ ms) ≡ ms) same
      (rw (not_older_self m) (select_of_All (λ x. is_older x m) ms olds))
select_older-drop (m ∷ ms) (suc n) l (olds, d) e =
    rw (not_older m l (IsOlder-at ms n l m olds e)) (select_older-drop ms n l d e)
