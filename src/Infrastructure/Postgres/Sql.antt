-- ===== src/Infrastructure/Postgres/Sql.antt =====
-- What the SQL statements of the Postgres repository say of the table `likes` (created by
-- social_api/migrations), a list of rows.
use be_in_crypto_social_api.Prelude.{
  ℕ, ◌+◌, Text, Text-discrete, List, [], ◌∷◌, ◌++◌, length, select, is_empty, Option, none, some,
  Bool, true, false, ◌&&◌, ◌||◌, not, ite, ltb, leb, ◌==◌, holds, if◌then◌else◌,
}
use be_in_crypto_social_api.Domain.Model.{
  to_timestamptz, Uuid, DateTime, ContentId, ContentType, UserId, Like, ContentKey,
  ContentKey-discrete,
}
use be_in_crypto_social_api.Api.Dto.{ContentItem, PaginationCursor}

-- `content_type = t AND content_id = i`
unfoldable pub of_content : ContentType → ContentId → Like → Bool
of_content t i l = holds (ContentKey-discrete (l.content_type, l.content_id) (t, i))

-- `user_id = u`
unfoldable pub of_user : UserId → Like → Bool
of_user u l = l.user_id.uuid == u.uuid

-- `user_id = u AND content_type = t AND content_id = i`
unfoldable pub of_like : UserId → ContentType → ContentId → Like → Bool
unfolding of_user of_content
of_like u t i l = of_user u l && of_content t i l

-- the row of a like, with the column's default and its time as a `timestamptz`
abbrev pub row_of : Uuid → Like → Like
row_of id l = record l { id = id; created_at = to_timestamptz l.created_at }

-- `INSERT … ON CONFLICT (user_id, content_type, content_id) DO NOTHING`: the rows affected.
unfoldable pub insert_like : Uuid → Like → List Like → ℕ × List Like
insert_like id l rows =
    if is_empty (select (of_like l.user_id l.content_type l.content_id) rows)
    then (1, rows ++ (row_of id l ∷ []))
    else (0, rows)

-- `DELETE … WHERE …`: the rows affected
unfoldable pub delete_like : UserId → ContentType → ContentId → List Like → ℕ × List Like
delete_like u t i rows =
    (length (select (of_like u t i) rows), select (λ l. not (of_like u t i l)) rows)

-- `SELECT COUNT(*) … WHERE …`
unfoldable pub count_likes : ContentType → ContentId → List Like → ℕ
count_likes t i rows = length (select (of_content t i) rows)

-- `(content_type, content_id) IN (SELECT * FROM UNNEST(…))`
unfoldable pub in_items : List ContentItem → Like → Bool
unfolding of_content
in_items [] l = false
in_items (item ∷ items) l = of_content item.content_type item.content_id l || in_items items l

-- the groups of `UNNEST(…) AS input(c_type, c_id) … GROUP BY input.c_type, input.c_id`
unfoldable pub add_key : ContentKey → List ContentKey → List ContentKey
add_key key [] = key ∷ []
add_key key (k ∷ keys) =
    let rest = add_key key keys in ite (ContentKey-discrete k key) (k ∷ keys) (k ∷ rest)

unfoldable pub distinct_keys : List ContentItem → List ContentKey
unfolding add_key
distinct_keys [] = []
distinct_keys (item ∷ items) = add_key (item.content_type, item.content_id) (distinct_keys items)

-- How often an item stands in the input: each copy joins every row of the likes.
unfoldable pub copies : ContentKey → List ContentItem → ℕ
copies key [] = 0
copies key (item ∷ items) =
    let rest = copies key items in
    ite (ContentKey-discrete (item.content_type, item.content_id) key) (rest + 1) rest

-- a cursor as the row value `($3, $4)` of `(created_at, id) < ($3, $4)`
unfoldable pub before : DateTime → Uuid → DateTime → Uuid → Bool
before t id t' id' = ltb t t' || ((t == t') && ltb id id')

-- The time of a cursor is that of a stored row, which has whole microseconds already.
unfoldable pub within_cursor : Option PaginationCursor → Like → Bool
unfolding before
within_cursor none l = true
within_cursor (some c) l = before l.created_at l.id c.t c.id

-- `$2::text IS NULL OR content_type = $2`
unfoldable pub of_type : Option Text → Like → Bool
of_type none l = true
of_type (some t) l = holds (Text-discrete l.content_type.as_str t)

-- `$2::timestamptz IS NULL OR created_at >= $2`
unfoldable pub since_time : Option DateTime → Like → Bool
since_time none l = true
since_time (some t) l = leb (to_timestamptz t) l.created_at

-- `ORDER BY created_at DESC, id DESC`
unfoldable pub insert_desc : Like → List Like → List Like
unfolding before
insert_desc l [] = l ∷ []
insert_desc l (m ∷ ms) =
    let rest = insert_desc l ms in
    if before l.created_at l.id m.created_at m.id then m ∷ rest else l ∷ m ∷ ms

unfoldable pub order_desc : List Like → List Like
unfolding insert_desc
order_desc [] = []
order_desc (l ∷ ls) = insert_desc l (order_desc ls)

-- the `SELECT` of `get_user_likes`, without its `LIMIT`
unfoldable pub user_likes : UserId → Option Text → Option PaginationCursor → List Like → List Like
unfolding of_user of_type within_cursor order_desc
user_likes u content_type cursor rows =
    order_desc
      (select (λ l. of_user u l && (of_type content_type l && within_cursor cursor l)) rows)

-- `GROUP BY content_type, content_id` with `COUNT(*)`
unfoldable pub bump : ContentKey → List (ContentKey × ℕ) → List (ContentKey × ℕ)
bump key [] = (key, 1) ∷ []
bump key ((k, n) ∷ groups) =
    let rest = bump key groups in
    ite (ContentKey-discrete k key) ((k, n + 1) ∷ groups) ((k, n) ∷ rest)

unfoldable pub group_counts : List Like → List (ContentKey × ℕ)
unfolding bump
group_counts [] = []
group_counts (l ∷ ls) = bump (l.content_type, l.content_id) (group_counts ls)

-- `ORDER BY "count!" DESC`; groups of one count keep the order in which they come
unfoldable pub insert_count : ContentKey × ℕ → List (ContentKey × ℕ) → List (ContentKey × ℕ)
insert_count g [] = g ∷ []
insert_count g (h ∷ groups) =
    let rest = insert_count g groups in if ltb g.1 h.1 then h ∷ rest else g ∷ h ∷ groups

unfoldable pub order_counts : List (ContentKey × ℕ) → List (ContentKey × ℕ)
unfolding insert_count
order_counts [] = []
order_counts (g ∷ groups) = insert_count g (order_counts groups)
