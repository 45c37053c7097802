-- ===== src/Infrastructure/Postgres/Table.antt =====
-- The statements of the repository against the unique constraint of the table.
pub mod Others
use be_in_crypto_social_api.Prelude.{
  ◌+◌, ◌≡◌, ◌≢◌, refl, ap, List, [], ◌∷◌, ◌++◌, length, length-append, is_empty, select, Option,
  none, some, Bool, true, false, not, ◌⊎◌, inl, inr, Bool-cases, arith,
}
use mathlib.Core.List.{append-nil}
use be_in_crypto_social_api.Domain.Model.{
  to_timestamptz, Uuid, DateTime, ContentId, ContentType, UserId, Like,
}
use be_in_crypto_social_api.Infrastructure.Postgres.Sql.{
  of_content, of_like, row_of, insert_like, delete_like, count_likes,
}

-- the rows of one user and content
abbrev pub rows_of : UserId → ContentType → ContentId → List Like → List Like
rows_of u t i rows = select (of_like u t i) rows

abbrev first_time : List Like → Option DateTime
first_time [] = none
first_time (l ∷ ls) = some l.created_at

-- when the user liked the content
unfoldable pub liked_at : UserId → ContentType → ContentId → List Like → Option DateTime
liked_at u t i rows = first_time (rows_of u t i rows)

-- `CONSTRAINT unique_user_content_like`
abbrev pub IsUnique : List Like → Type 0
IsUnique [] = Unit
IsUnique (l ∷ ls) = (rows_of l.user_id l.content_type l.content_id ls ≡ []) × IsUnique ls

no_rows : (rows : List Like) → first_time rows ≡ none → rows ≡ []
no_rows [] h = refl
no_rows (l ∷ ls) h = cc

select_all : (p : Like → Bool) (xs : List Like) → select p xs ≡ [] → select (λ l. not (p l)) xs ≡ xs
select_all p [] h = refl
select_all p (x ∷ xs) h = ground (arith, select_all p xs)

of_like_self :
    (l : Like) (id : Uuid) → of_like l.user_id l.content_type l.content_id (row_of id l) ≡ true
unfolding of_like
of_like_self l id = ground arith

of_like-of_content :
    (u : UserId) (t : ContentType) (i : ContentId) (l : Like)
    → of_like u t i l ≡ true
    → of_content t i l ≡ true
unfolding of_like
of_like-of_content u t i l h = ground arith

of_like_symm :
    (l m : Like)
    → of_like l.user_id l.content_type l.content_id m
      ≡ of_like m.user_id m.content_type m.content_id l
unfolding of_like
of_like_symm l m = ground arith

-- a row that matches a key stands for the key
of_like_same :
    (u : UserId) (t : ContentType) (i : ContentId) (l m : Like)
    → of_like u t i l ≡ true
    → of_like u t i m ≡ of_like l.user_id l.content_type l.content_id m
unfolding of_like
of_like_same u t i l m h = ground arith

rows_of_same :
    (u : UserId) (t : ContentType) (i : ContentId) (l : Like) (rows : List Like)
    → of_like u t i l ≡ true
    → rows_of u t i rows ≡ rows_of l.user_id l.content_type l.content_id rows
rows_of_same u t i l [] h = refl
rows_of_same u t i l (m ∷ rows) h = rw (of_like_same u t i l m h, rows_of_same u t i l rows h) refl

select-append :
    (p : Like → Bool) (xs ys : List Like) → select p (xs ++ ys) ≡ select p xs ++ select p ys
select-append p [] ys = refl
select-append p (x ∷ xs) ys = ground (arith, select-append p xs ys)

select_comm : (p q : Like → Bool) (xs : List Like) → select p xs ≡ [] → select p (select q xs) ≡ []
select_comm p q [] h = refl
select_comm p q (x ∷ xs) h = ground (arith, select_comm p q xs)

select-not : (p : Like → Bool) (xs : List Like) → select p (select (λ l. not (p l)) xs) ≡ []
select-not p [] = refl
select-not p (x ∷ xs) = ground (arith, select-not p xs)

-- a row appended to a table without its key keeps the table unique
append-IsUnique :
    (rows : List Like) (l : Like)
    → IsUnique rows
    → rows_of l.user_id l.content_type l.content_id rows ≡ []
    → IsUnique (rows ++ l ∷ [])
append-IsUnique [] l u h = (refl, tt)
append-IsUnique (m ∷ rows) l (free, u) h = (
  rw (select-append, free) (ground (arith, of_like_symm m l)),
  append-IsUnique rows l u (ground arith),
)

select-IsUnique : (q : Like → Bool) (rows : List Like) → IsUnique rows → IsUnique (select q rows)
select-IsUnique q [] u = tt
select-IsUnique q (m ∷ rows) (free, u) = elim (Bool-cases (q m)) [
  | inl keep ↦ rw keep (select_comm _ q rows free, select-IsUnique q rows u)
  | inr drop ↦ rw drop (select-IsUnique q rows u)
]

-- deleting the rows of one key takes them, and no others, from the count of their content
count-delete :
    (u : UserId) (t : ContentType) (i : ContentId) (rows : List Like)
    → count_likes t i rows
      ≡ count_likes t i (select (λ l. not (of_like u t i l)) rows) + length (rows_of u t i rows)
unfolding count_likes
count-delete u t i [] = refl
count-delete u t i (m ∷ rows) = ground (arith, count-delete u t i rows, of_like-of_content u t i m)

-- in a unique table a key has at most one row
pub rows_of_unique :
    (u : UserId) (t : ContentType) (i : ContentId) (rows : List Like)
    → IsUnique rows
    → (rows_of u t i rows ≡ []) ⊎ ((l : Like) × (rows_of u t i rows ≡ l ∷ []))
rows_of_unique u t i [] h = inl refl
rows_of_unique u t i (m ∷ rows) (free, h) = elim (Bool-cases (of_like u t i m)) [
  | inl e ↦ inr (m, rw (e, rows_of_same u t i m rows e, free) refl)
  | inr e ↦ rw e (rows_of_unique u t i rows h)
]

-- An insert of a like that is not there: one row more of its content, the table stays unique, and
-- the like has the time that was given, in whole microseconds. An insert of one that is there
-- changes nothing.
pub insert_like_lem :
    (id : Uuid) (l : Like) (rows : List Like)
    → IsUnique rows
    → liked_at l.user_id l.content_type l.content_id rows ≡ none
    → let (n, rows') = insert_like id l rows in
      (n ≡ 1)
      × (count_likes l.content_type l.content_id rows'
          ≡ count_likes l.content_type l.content_id rows + 1)
      × (liked_at l.user_id l.content_type l.content_id rows' ≡ some (to_timestamptz l.created_at))
      × IsUnique rows'
unfolding insert_like liked_at count_likes
insert_like_lem id l rows u new =
    let none_there : rows_of l.user_id l.content_type l.content_id rows ≡ [] =
      no_rows (rows_of l.user_id l.content_type l.content_id rows) new in
    let row = row_of id l in
    let own = of_like_self l id in
    rw none_there (
      refl,
      rw (select-append, length-append)
          (rw (of_like-of_content l.user_id l.content_type l.content_id row own) refl),
      rw (select-append, none_there) (rw own refl),
      append-IsUnique rows row u none_there,
    )

pub insert_like_again :
    (id : Uuid) (l : Like) (rows : List Like) (d : DateTime)
    → liked_at l.user_id l.content_type l.content_id rows ≡ some d
    → insert_like id l rows ≡ (0, rows)
unfolding insert_like liked_at
insert_like_again id l rows d old = ground arith

-- A delete of a like that is there: one row less of its content, none left of its key, and the
-- table stays unique. A delete of one that is not there changes nothing.
pub delete_like_lem :
    (u : UserId) (t : ContentType) (i : ContentId) (rows : List Like) (d : DateTime)
    → IsUnique rows
    → liked_at u t i rows ≡ some d
    → let (n, rows') = delete_like u t i rows in
      (n ≡ 1)
      × (count_likes t i rows ≡ count_likes t i rows' + 1)
      × (liked_at u t i rows' ≡ none)
      × IsUnique rows'
unfolding delete_like liked_at
delete_like_lem u t i rows d h old =
    let one : length (rows_of u t i rows) ≡ 1 = ground (arith, rows_of_unique u t i rows h) in
    (
      one,
      omega (arith, count-delete u t i rows),
      rw (select-not (of_like u t i) rows) refl,
      select-IsUnique (λ l. not (of_like u t i l)) rows h,
    )

pub delete_like_absent :
    (u : UserId) (t : ContentType) (i : ContentId) (rows : List Like)
    → liked_at u t i rows ≡ none
    → delete_like u t i rows ≡ (0, rows)
unfolding delete_like liked_at
delete_like_absent u t i rows new =
    let none_there : rows_of u t i rows ≡ [] = no_rows (rows_of u t i rows) new in
    rw (none_there, select_all (of_like u t i) rows none_there) refl
