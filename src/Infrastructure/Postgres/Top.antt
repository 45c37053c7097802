-- ===== src/Infrastructure/Postgres/Top.antt =====
-- `get_top_likes`: the groups of the rows, and their order.
use be_in_crypto_social_api.Prelude.{
  ℕ, zero, suc, pos, ap, ◌+◌, ◌≤◌, ◌≡◌, ◌≢◌, ◌⊎◌, refl, List, [], ◌∷◌, ◌++◌, All, map, length, take,
  drop, take_append_drop, select, get, Option, or_zero, ◌&&◌, Text, ltb, Bool-cases, inl, inr,
  arith,
}
use mathlib.Core.List.{Perm}
use mathlib.Core.List.Perm
use be_in_crypto_social_api.Prelude.Exec.{ok}
use be_in_crypto_social_api.Domain.Model.{
  DateTime, ContentId, ContentType, ContentKey, ContentKey-discrete, Like,
}
use be_in_crypto_social_api.Api.Dto.{TopLikeItem}
use be_in_crypto_social_api.Infrastructure.Postgres.Sql.{
  of_content, of_type, since_time, count_likes, bump, group_counts, insert_count, order_counts,
}
use be_in_crypto_social_api.Infrastructure.Postgres.Repository.{
  PgPool, Server, get_top_likes, top_item,
}

abbrev pub Group : Type 0
Group = ContentKey × ℕ

-- the counts do not rise
abbrev pub IsRanked : List Group → Type 0
IsRanked [] = Unit
IsRanked (g ∷ groups) = All (λ h. h.1 ≤ g.1) groups × IsRanked groups

abbrev pub HasDistinctKeys : List Group → Type 0
HasDistinctKeys [] = Unit
HasDistinctKeys (g ∷ groups) = All (λ h. h.0 ≢ g.0) groups × HasDistinctKeys groups

All-weaken :
    (P Q : Group → Type 0) (gs : List Group) → ((g : Group) → P g → Q g) → All P gs → All Q gs
All-weaken P Q [] f h = tt
All-weaken P Q (g ∷ gs) f (p, h) = (f g p, All-weaken P Q gs f h)

get-bump :
    (key q : ContentKey) (groups : List Group)
    → (key ≡ q
        → or_zero (get ContentKey-discrete q (bump key groups))
          ≡ or_zero (get ContentKey-discrete q groups) + 1)
      × (key ≢ q → get ContentKey-discrete q (bump key groups) ≡ get ContentKey-discrete q groups)
unfolding bump get
get-bump key q [] = ground arith
get-bump key q ((k, n) ∷ groups) = ground (arith, get-bump key q groups)

-- a key's group counts the rows of the key
group_counts-count :
    (t : ContentType) (i : ContentId) (ls : List Like)
    → or_zero (get ContentKey-discrete (t, i) (group_counts ls)) ≡ count_likes t i ls
unfolding group_counts count_likes of_content
group_counts-count t i [] = unfold get in refl
group_counts-count t i (l ∷ ls) = ground (
  arith,
  get-bump (l.content_type, l.content_id) (t, i) (group_counts ls),
  group_counts-count t i ls,
)

All-bump :
    (key k : ContentKey) (groups : List Group)
    → key ≢ k
    → All (λ h. h.0 ≢ k) groups
    → All (λ h. h.0 ≢ k) (bump key groups)
unfolding bump
All-bump key k [] ne h = (ne, tt)
All-bump key k ((j, n) ∷ groups) ne (away, h) = ground (arith, All-bump key k groups ne h)

bump-HasDistinctKeys :
    (key : ContentKey) (groups : List Group)
    → HasDistinctKeys groups
    → HasDistinctKeys (bump key groups)
unfolding bump
bump-HasDistinctKeys key [] h = (tt, tt)
bump-HasDistinctKeys key ((k, n) ∷ groups) (away, h) =
    ground (arith, All-bump key k groups, bump-HasDistinctKeys key groups h)

group_counts-HasDistinctKeys : (ls : List Like) → HasDistinctKeys (group_counts ls)
unfolding group_counts
group_counts-HasDistinctKeys [] = tt
group_counts-HasDistinctKeys (l ∷ ls) =
    bump-HasDistinctKeys _ (group_counts ls) (group_counts-HasDistinctKeys ls)

insert_count-Perm : (g : Group) (groups : List Group) → Perm (insert_count g groups) (g ∷ groups)
unfolding insert_count
insert_count-Perm g [] = Perm.refl (g ∷ [])
insert_count-Perm g (h ∷ groups) = elim (Bool-cases (ltb g.1 h.1)) [
  | inl behind ↦
      rw behind (Perm.trans (Perm.cons h (insert_count-Perm g groups)) (Perm.swap g h groups))
  | inr first ↦ rw first (Perm.refl (g ∷ h ∷ groups))
]

order_counts-Perm : (groups : List Group) → Perm (order_counts groups) groups
unfolding order_counts
order_counts-Perm [] = Perm.refl []
order_counts-Perm (g ∷ groups) =
    Perm.trans (insert_count-Perm g (order_counts groups)) (Perm.cons g (order_counts-Perm groups))

All-insert_count :
    (P : Group → Type 0) (g : Group) (groups : List Group)
    → P g
    → All P groups
    → All P (insert_count g groups)
unfolding insert_count
All-insert_count P g [] p h = (p, tt)
All-insert_count P g (k ∷ groups) p (q, h) = elim (Bool-cases (ltb g.1 k.1)) [
  | inl behind ↦ rw behind (q, All-insert_count P g groups p h)
  | inr first ↦ rw first (p, (q, h))
]

insert_count-IsRanked :
    (g : Group) (groups : List Group) → IsRanked groups → IsRanked (insert_count g groups)
unfolding insert_count
insert_count-IsRanked g [] h = (tt, tt)
insert_count-IsRanked g (k ∷ groups) (below, h) = elim (Bool-cases (ltb g.1 k.1)) [
  | inl behind ↦ rw behind (
    All-insert_count (λ x. x.1 ≤ k.1) g groups (ground (arith, behind)) below,
    insert_count-IsRanked g groups h,
  )
  | inr first ↦
      let here : k.1 ≤ g.1 = ground (arith, first) in
      rw first (
        (
          here,
          All-weaken (λ x. x.1 ≤ k.1) (λ x. x.1 ≤ g.1) groups (λ x le. omega (arith, le, here))
              below,
        ),
        (below, h),
      )
]

order_counts-IsRanked : (groups : List Group) → IsRanked (order_counts groups)
unfolding order_counts
order_counts-IsRanked [] = tt
order_counts-IsRanked (g ∷ groups) =
    insert_count-IsRanked g (order_counts groups) (order_counts-IsRanked groups)

take-map :
    (f : Group → TopLikeItem) (n : ℕ) (gs : List Group) → take n (map f gs) ≡ map f (take n gs)
take-map f zero gs = refl
take-map f (suc n) [] = refl
take-map f (suc n) (g ∷ gs) = ap (◌∷◌ (f g)) (take-map f n gs)

drop_none : (n : ℕ) (gs : List Group) → (drop n gs ≡ []) ⊎ (length (take n gs) ≡ n)
drop_none zero gs = inr refl
drop_none (suc n) [] = inl refl
drop_none (suc n) (g ∷ gs) = elim (drop_none n gs) [
  | inl none_left ↦ inl none_left
  | inr full ↦ inr (omega (arith, full))
]

-- While no query fails, and in whichever order the server has put the groups, the leaderboard of a
-- limit `n` shows the first groups of the rows of the content type, if one is given, since the
-- time, if one is given: all the groups can be put in an order of falling counts that begins with
-- those shown, which are `n` or all of them; each key has one group, and it counts the key's rows.
pub get_top_likes-IsRanked :
    (server : Server) (content_type : Option Text) (since : Option DateTime) (n : ℕ) (p : PgPool)
    → ((groups : List Group) → Perm (server.group_order groups) groups)
    → p.faults ≡ []
    → let rows = select (λ l. of_type content_type l && since_time since l) p.likes in
      (shown : List Group) × (rest : List Group) × (get_top_likes server content_type since
          (pos n)
          p
        ≡ (ok (map (top_item server) shown), p))
      × IsRanked (shown ++ rest)
      × Perm (shown ++ rest) (group_counts rows)
      × ((rest ≡ []) ⊎ (length shown ≡ n))
      × HasDistinctKeys (group_counts rows)
      × ((t : ContentType) (i : ContentId)
          → or_zero (get ContentKey-discrete (t, i) (group_counts rows)) ≡ count_likes t i rows)
unfolding get_top_likes
get_top_likes-IsRanked server content_type since n p order calm =
    let rows = select (λ l. of_type content_type l && since_time since l) p.likes in
    let groups = server.group_order (group_counts rows) in
    let sorted = order_counts groups in
    let split : take n sorted ++ drop n sorted ≡ sorted = take_append_drop n sorted in
    (
      take n sorted,
      drop n sorted,
      ground (arith, calm, take-map (top_item server) n sorted),
      rw split (order_counts-IsRanked groups),
      rw split (Perm.trans (order_counts-Perm groups) (order (group_counts rows))),
      drop_none n sorted,
      group_counts-HasDistinctKeys rows,
      λ t i. group_counts-count t i rows,
    )
