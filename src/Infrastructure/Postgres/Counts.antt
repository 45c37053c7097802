-- ===== src/Infrastructure/Postgres/Counts.antt =====
-- The counts of a batch of distinct items, by the SQL of `get_counts_batch`.
use be_in_crypto_social_api.Prelude.{
  ◌≡◌, ◌≢◌, refl, sym, List, [], ◌∷◌, All, map, if_pos, if_neg, arith,
}
use native.Mathlib.Nat.{one-mul}
use mathlib.Core.List.{Perm}
use mathlib.Core.List.Perm
use be_in_crypto_social_api.Domain.Model.{ContentKey, ContentKey-discrete, Like}
use be_in_crypto_social_api.Api.Dto.{ContentItem, ContentCount}
use be_in_crypto_social_api.Infrastructure.Postgres.Sql.{
  count_likes, copies, add_key, distinct_keys,
}
use be_in_crypto_social_api.Infrastructure.Postgres.Repository.{Server, count_row}

abbrev pub key_of : ContentItem → ContentKey
key_of item = (item.content_type, item.content_id)

-- no item stands twice
abbrev pub HasDistinctItems : List ContentItem → Type 0
HasDistinctItems [] = Unit
HasDistinctItems (item ∷ items) =
    All (λ other. key_of other ≢ key_of item) items × HasDistinctItems items

add_key-Perm :
    (key : ContentKey) (keys : List ContentKey)
    → All (λ k. k ≢ key) keys
    → Perm (add_key key keys) (key ∷ keys)
unfolding add_key
add_key-Perm key [] h = Perm.refl (key ∷ [])
add_key-Perm key (k ∷ keys) (ne, h) =
    rw (if_neg (ContentKey-discrete k key) ne)
      (Perm.trans (Perm.cons k (add_key-Perm key keys h)) (Perm.swap key k keys))

All-add_key :
    (P : ContentKey → Type 0) (key : ContentKey) (keys : List ContentKey)
    → P key
    → All P keys
    → All P (add_key key keys)
unfolding add_key
All-add_key P key [] p h = (p, tt)
All-add_key P key (k ∷ keys) p (q, h) = elim (ContentKey-discrete k key) [
  | yes e ↦ rw (if_pos (ContentKey-discrete k key) e) (q, h)
  | no ne ↦ rw (if_neg (ContentKey-discrete k key) ne) (q, All-add_key P key keys p h)
]

All-distinct_keys :
    (P : ContentKey → Type 0) (items : List ContentItem)
    → All (λ item. P (key_of item)) items
    → All P (distinct_keys items)
unfolding distinct_keys
All-distinct_keys P [] h = tt
All-distinct_keys P (item ∷ items) (p, h) =
    All-add_key P (key_of item) (distinct_keys items) p (All-distinct_keys P items h)

-- distinct items are their own groups
pub distinct_keys-Perm :
    (items : List ContentItem)
    → HasDistinctItems items
    → Perm (distinct_keys items) (map key_of items)
unfolding distinct_keys
distinct_keys-Perm [] h = Perm.refl []
distinct_keys-Perm (item ∷ items) (ne, h) =
    Perm.trans
      (add_key-Perm (key_of item) (distinct_keys items)
        (All-distinct_keys (λ k. k ≢ key_of item) items ne))
      (Perm.cons (key_of item) (distinct_keys-Perm items h))

copies-absent :
    (key : ContentKey) (items : List ContentItem)
    → All (λ item. key_of item ≢ key) items
    → copies key items ≡ 0
unfolding copies
copies-absent key [] h = refl
copies-absent key (item ∷ items) (ne, h) =
    rw (if_neg (ContentKey-discrete (key_of item) key) ne) (copies-absent key items h)

-- the count of an item in the table
abbrev pub count_in : List Like → ContentItem → ContentCount
count_in rows item = record {
  content_type = item.content_type;
  content_id = item.content_id;
  count = count_likes item.content_type item.content_id rows;
}

copies-more :
    (item : ContentItem) (items part : List ContentItem)
    → All (λ x. key_of x ≢ key_of item) part
    → All (λ x. copies (key_of x) items ≡ 1) part
    → All (λ x. copies (key_of x) (item ∷ items) ≡ 1) part
unfolding copies
copies-more item items [] ne h = tt
copies-more item items (x ∷ part) (apart, ne) (once, h) = (
  rw (if_neg (ContentKey-discrete (key_of item) (key_of x)) (λ e. apart (sym e))) once,
  copies-more item items part ne h,
)

pub All-copies :
    (items : List ContentItem)
    → HasDistinctItems items
    → All (λ x. copies (key_of x) items ≡ 1) items
unfolding copies
All-copies [] h = tt
All-copies (item ∷ items) (ne, h) = (
  rw (if_pos (ContentKey-discrete (key_of item) (key_of item)) refl)
      (omega (arith, copies-absent (key_of item) items ne)),
  copies-more item items items ne (All-copies items h),
)

module _ (server : Server) (rows : List Like) (items : List ContentItem) where
  count_row-own :
      (item : ContentItem)
      → copies (key_of item) items ≡ 1
      → count_row server items rows (key_of item) ≡ count_in rows item
  unfolding count_row
  count_row-own item once = rw once (λ k. record {
    content_type = item.content_type;
    content_id = item.content_id;
    count = one-mul (count_likes item.content_type item.content_id rows) k;
  })

  pub count_rows :
      (part : List ContentItem)
      → All (λ x. copies (key_of x) items ≡ 1) part
      → map (count_row server items rows) (map key_of part) ≡ map (count_in rows) part
  count_rows [] h = refl
  count_rows (item ∷ part) (once, h) = rw (count_row-own item once, count_rows part h) refl
