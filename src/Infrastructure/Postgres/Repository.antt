-- ===== src/Infrastructure/Postgres/Repository.antt =====
-- The methods of `PostgresLikeRepository`. The pool is its table and, for each query to come,
-- whether it fails and with which error; a query that fails has not changed the table.
use be_in_crypto_social_api.Prelude.{
  ℕ, ◌*◌, ℤ, pos, negsuc, as_i64, Text, codes, List, [], ◌∷◌, ◌++◌, map, take, select, is_empty,
  Option, none, some, Bool, ◌&&◌, ltb, ◌==◌, if◌then◌else◌,
}
use be_in_crypto_social_api.Prelude.Exec.{Result, ok, err, pure}
use be_in_crypto_social_api.Domain.Errors.{DomainError, database_error, database_health_error}
use be_in_crypto_social_api.Domain.Model.{
  Uuid, DateTime, ContentId, ContentType, UserId, Like, ContentKey,
}
use be_in_crypto_social_api.Domain.Ports.{LikeDbRepository, Call}
use be_in_crypto_social_api.Api.Dto.{ContentCount, ContentItem, PaginationCursor, TopLikeItem}
use be_in_crypto_social_api.Infrastructure.Postgres.Sql.{
  of_user, of_like, insert_like, delete_like, count_likes, in_items, distinct_keys, copies, of_type,
  since_time, user_likes, group_counts, order_counts,
}

-- a `sqlx::Error`, by its two texts
pub record SqlError : Type 0 where
  pub display : Text
  pub debug : Text

pub record PgPool : Type 0 where
  pub likes : List Like
  pub faults : List (Option SqlError)

-- What the server decides: the next default identifier, the order of rows and groups where the
-- statement gives none, and two errors.
pub record Server : Type 0 where
  pub uuid_generate : List Like → Uuid
  pub row_order : List Like → List Like
  pub key_order : List ContentKey → List ContentKey
  pub group_order : List (ContentKey × ℕ) → List (ContentKey × ℕ)
  pub row_not_found : SqlError
  pub negative_limit : SqlError
  pub uuid_text : Uuid → Text

-- how a statement ends, on the table
abbrev pub Statement : Type 0 → Type 0
Statement A = List Like → Result SqlError A × List Like

-- `.map_err(…)`
abbrev map_err : {A : Type 0} → (SqlError → DomainError) → Result SqlError A → Result DomainError A
map_err f (ok a) = ok a
map_err f (err e) = err (f e)

abbrev run_statement :
    {A : Type 0}
    → (SqlError → DomainError)
    → Statement A
    → List Like
    → List (Option SqlError)
    → Result DomainError A × PgPool
run_statement f statement rows faults =
    let (r, rows') = statement rows in (map_err f r, record { likes = rows'; faults = faults })

-- a query against the pool
abbrev query_on :
    {A : Type 0}
    → (SqlError → DomainError)
    → Statement A
    → List Like
    → List (Option SqlError)
    → Result DomainError A × PgPool
query_on f statement rows [] = run_statement f statement rows []
query_on f statement rows (none ∷ faults) = run_statement f statement rows faults
query_on f statement rows (some e ∷ faults) = (err (f e), record { likes = rows; faults = faults })

unfoldable pub query : {A : Type 0} → (SqlError → DomainError) → Statement A → Call PgPool A
query f statement p = query_on f statement p.likes p.faults

abbrev select_rows : {A : Type 0} → (List Like → A) → Statement A
select_rows f rows = (ok (f rows), rows)

-- `e.to_string()`, and the messages that name the query
abbrev plain_error : SqlError → DomainError
plain_error e = database_error e.display

abbrev like_error : SqlError → DomainError
like_error e = database_error (codes "Error on like query " ++ e.debug)

abbrev unlike_error : SqlError → DomainError
unlike_error e = database_error (codes "Error on unlike query " ++ e.debug)

abbrev count_error : SqlError → DomainError
count_error e = database_error (codes "Error on get like count query " ++ e.debug)

-- `LIMIT n`
abbrev limited : {A : Type 0} → SqlError → ℤ → List A → Result SqlError (List A)
limited e (pos n) rows = ok (take n rows)
limited e (negsuc n) rows = err e

-- `fetch_one`
abbrev fetch_one : SqlError → List Like → Result SqlError Like
fetch_one e [] = err e
fetch_one e (l ∷ ls) = ok l

module _ (server : Server) where
  unfoldable pub save : Like → Call PgPool Bool
  unfolding insert_like query
  save l = query like_error (λ rows.
      let (rows_affected, rows') = insert_like (server.uuid_generate rows) l rows in
      (ok (rows_affected == 0), rows'))

  unfoldable pub get_like : UserId → ContentType → ContentId → Call PgPool Like
  unfolding query
  get_like u t i = query plain_error (λ rows.
      (fetch_one server.row_not_found (server.row_order (select (of_like u t i) rows)), rows))

  unfoldable pub get_likes_by_pairs : UserId → List ContentItem → Call PgPool (List Like)
  unfolding query
  get_likes_by_pairs u items =
      query plain_error (
        select_rows (λ rows. server.row_order (select (λ l. of_user u l && in_items items l) rows)))

  unfoldable pub remove : UserId → ContentType → ContentId → Call PgPool Bool
  unfolding delete_like query
  remove u t i = query unlike_error (λ rows.
      let (rows_affected, rows') = delete_like u t i rows in (ok (ltb 0 rows_affected), rows'))

  unfoldable pub get_likes_count : ContentType → ContentId → Call PgPool ℕ
  unfolding query
  get_likes_count t i = query count_error (select_rows (count_likes t i))

  -- the row of a group, of which each copy in the input joins every like
  unfoldable pub count_row : List ContentItem → List Like → ContentKey → ContentCount
  unfolding count_likes copies
  count_row items rows (t, i) = record {
    content_type = t;
    content_id = i;
    count = copies (t, i) items * count_likes t i rows;
  }

  unfoldable pub get_counts_batch : List ContentItem → Call PgPool (List ContentCount)
  unfolding query count_row
  get_counts_batch items =
      if is_empty items
      then pure []
      else query plain_error (
          select_rows (λ rows. map (count_row items rows) (server.key_order (distinct_keys items))))

  -- `limit as i64`
  unfoldable pub get_user_likes :
      UserId → Option Text → Option PaginationCursor → ℕ → Call PgPool (List Like)
  unfolding query
  get_user_likes u content_type cursor limit = query plain_error (λ rows.
      (limited server.negative_limit (as_i64 limit) (user_likes u content_type cursor rows), rows))

  unfoldable pub top_item : ContentKey × ℕ → TopLikeItem
  top_item ((t, i), n) = record {
    content_type = t.as_str;
    content_id = server.uuid_text i.uuid;
    count = n;
  }

  unfoldable pub get_top_likes : Option Text → Option DateTime → ℤ → Call PgPool (List TopLikeItem)
  unfolding query top_item
  get_top_likes content_type since limit = query plain_error (λ rows.
      let groups = group_counts (select (λ l. of_type content_type l && since_time since l) rows) in
      (
        limited server.negative_limit limit
            (map top_item (order_counts (server.group_order groups))),
        rows,
      ))

  unfoldable pub health_check : Call PgPool (Unit {0})
  unfolding query
  health_check = query (λ e. database_health_error e.display) (λ rows. (ok tt, rows))

  -- `impl LikeDbRepository for PostgresLikeRepository`
  unfoldable pub postgres_repository : LikeDbRepository PgPool
  postgres_repository = record {
    save = save;
    remove = remove;
    get_like = get_like;
    get_likes_by_pairs = get_likes_by_pairs;
    get_likes_count = get_likes_count;
    get_user_likes = get_user_likes;
    get_counts_batch = get_counts_batch;
    get_top_likes = get_top_likes;
    health_check = health_check;
  }
