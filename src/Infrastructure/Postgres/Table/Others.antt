-- ===== src/Infrastructure/Postgres/Table/Others.antt =====
-- The statements of social_api/src/infrastructure/postgres/like_repository.rs and the likes of other
-- users.
use be_in_crypto_social_api.Prelude.{
  ◌≡◌, ◌≢◌, refl, ap, List, [], ◌∷◌, is_empty, select, Bool, true, false, not, inl, inr, Bool-cases,
  arith,
}
use mathlib.Core.List.{append-nil}
use be_in_crypto_social_api.Domain.Model.{Uuid, ContentId, ContentType, UserId, Like}
use be_in_crypto_social_api.Infrastructure.Postgres.Sql.{row_of, of_like, insert_like, delete_like}
use be_in_crypto_social_api.Infrastructure.Postgres.Table.{
  rows_of, liked_at, first_time, of_like_self, select-append,
}

-- the rows of another user
of_like_other :
    (u u' : UserId) (t t' : ContentType) (i i' : ContentId) (l : Like)
    → u' ≢ u
    → of_like u t i l ≡ true
    → of_like u' t' i' l ≡ false
unfolding of_like
of_like_other u u' t t' i i' l ne h =
    let uuids : u'.uuid ≢ u.uuid = λ e. ne (λ k. record { uuid = e k }) in ground arith

select-select :
    (p q : Like → Bool) (xs : List Like)
    → ((x : Like) → q x ≡ true → p x ≡ false)
    → select p (select (λ l. not (q l)) xs) ≡ select p xs
select-select p q [] h = refl
select-select p q (x ∷ xs) h = elim (Bool-cases (q x)) [
  | inl out ↦ rw (out, h x out) (select-select p q xs h)
  | inr stay ↦ elim (Bool-cases (p x)) [
    | inl e ↦ rw (stay, e) (ap (◌∷◌ x) (select-select p q xs h))
    | inr e ↦ rw (stay, e) (select-select p q xs h)
  ]
]

-- An insert or a delete leaves the likes of every other user as they are.
pub insert_like_others :
    (id : Uuid) (l : Like) (rows : List Like) (u : UserId) (t : ContentType) (i : ContentId)
    → u ≢ l.user_id
    → liked_at u t i (insert_like id l rows).1 ≡ liked_at u t i rows
unfolding insert_like liked_at
insert_like_others id l rows u t i ne =
    let row = row_of id l in
    let out : of_like u t i row ≡ false =
      of_like_other l.user_id u l.content_type t l.content_id i row ne (of_like_self l id) in
    elim (Bool-cases (is_empty (rows_of l.user_id l.content_type l.content_id rows))) [
      | inl new ↦
          rw new (rw select-append (rw out (ap first_time (append-nil (rows_of u t i rows)))))
      | inr old ↦ rw old refl
    ]

pub delete_like_others :
    (u u' : UserId) (t t' : ContentType) (i i' : ContentId) (rows : List Like)
    → u' ≢ u
    → liked_at u' t' i' (delete_like u t i rows).1 ≡ liked_at u' t' i' rows
unfolding delete_like liked_at
delete_like_others u u' t t' i i' rows ne = ap first_time (
    select-select (of_like u' t' i') (of_like u t i) rows
      (λ l h. of_like_other u u' t t' i i' l ne h))
