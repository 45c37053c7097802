-- ===== src/Infrastructure/Postgres/Paging.antt =====
-- The rows of `get_user_likes` behind a cursor.
use be_in_crypto_social_api.Prelude.{
  ℕ, suc, ◌+◌, Text, ◌≡◌, refl, sym, ap, ◌∙◌, List, [], ◌∷◌, select, drop, get_elem?,
  get_elem?-drop, Bool, true, ◌&&◌, Option, none, some, arith,
}
use mathlib.Core.List.{Perm}
use be_in_crypto_social_api.Domain.Model.{UserId, Like}
use be_in_crypto_social_api.Api.Dto.{PaginationCursor}
use be_in_crypto_social_api.Infrastructure.Postgres.Sql.{
  of_user, of_type, within_cursor, order_desc, user_likes,
}
use be_in_crypto_social_api.Infrastructure.Postgres.Order.{
  is_older, IsDesc, HasDistinctIds, order_desc-Perm, select-HasDistinctIds, select-order_desc,
  order_desc-IsDesc, select_older-drop,
}

-- the cursor of a row
abbrev pub cursor_of : Like → PaginationCursor
cursor_of l = record { t = l.created_at; id = l.id }

module _ (u : UserId) (content_type : Option Text) (rows : List Like)
    (distinct : HasDistinctIds rows) where
  abbrev all_likes : List Like
  all_likes = user_likes u content_type none rows

  -- what the statement asks of a row beside the cursor
  abbrev pub listed : Like → Bool
  listed l = of_user u l && (of_type content_type l && true)

  -- A cursor stands at an offset of the user's likes: at the beginning there is none, and further
  -- on it is that of the row before the offset.
  pub data StandsAt : Option PaginationCursor → ℕ → Type 0 where
    start : StandsAt none 0
    behind :
        (k : ℕ) (l : Like) → get_elem? all_likes k ≡ some l → StandsAt (some (cursor_of l)) (suc k)

  -- the user's likes, put in order
  pub user_likes-IsDesc : IsDesc all_likes × Perm all_likes (select listed rows)
  unfolding user_likes
  user_likes-IsDesc = (
    order_desc-IsDesc (select listed rows) (select-HasDistinctIds listed rows distinct),
    order_desc-Perm (select listed rows),
  )

  select_both :
      (l : Like) (ls : List Like)
      → select
          (λ x. of_user u x && (of_type content_type x && within_cursor (some (cursor_of l)) x))
          ls
        ≡ select (λ x. is_older x l) (select listed ls)
  unfolding within_cursor
  select_both l [] = refl
  select_both l (x ∷ ls) = ground (arith, select_both l ls)

  -- The rows behind a cursor are all the user's likes without those before its offset.
  pub user_likes-drop :
      (c : Option PaginationCursor) (k : ℕ)
      → StandsAt c k
      → user_likes u content_type c rows ≡ drop k all_likes
  user_likes-drop c k start = refl
  user_likes-drop c k' (behind k l at) =
      unfold user_likes in
      (ap order_desc (select_both l rows)
        ∙ sym (
            select-order_desc (λ x. is_older x l) (select listed rows)
              (select-HasDistinctIds listed rows distinct))
        ∙ select_older-drop (order_desc (select listed rows)) k l
            (order_desc-IsDesc (select listed rows) (select-HasDistinctIds listed rows distinct))
            at)

  -- the cursor of the last row of a page stands behind the page
  pub StandsAt-next :
      (c : Option PaginationCursor) (k n : ℕ) (l : Like)
      → StandsAt c k
      → get_elem? (drop k all_likes) n ≡ some l
      → StandsAt (some (cursor_of l)) (suc (k + n))
  StandsAt-next c k n l at e = behind (k + n) l (sym (get_elem?-drop k n all_likes) ∙ e)
