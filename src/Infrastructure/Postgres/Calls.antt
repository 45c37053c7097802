-- ===== src/Infrastructure/Postgres/Calls.antt =====
-- What the repository's methods return and leave while no query fails, in terms of the table.
use be_in_crypto_social_api.Prelude.{
  ℕ, suc, ◌+◌, ◌%◌, ◌^◌, ◌<◌, as_i64, pos, Text, ◌≡◌, ◌≢◌, [], ◌∷◌, take, Option, none, some, true,
  false, arith, inl, inr,
}
use be_in_crypto_social_api.Prelude.Exec.{ok}
use be_in_crypto_social_api.Domain.Model.{
  to_timestamptz, DateTime, ContentId, ContentType, UserId, Like,
}
use be_in_crypto_social_api.Infrastructure.Postgres.Sql.{count_likes, user_likes}
use be_in_crypto_social_api.Api.Dto.{PaginationCursor}
use be_in_crypto_social_api.Infrastructure.Postgres.Table.{
  liked_at, IsUnique, rows_of_unique, insert_like_lem, insert_like_again, delete_like_lem,
  delete_like_absent,
}
use be_in_crypto_social_api.Infrastructure.Postgres.Table.Others.{
  insert_like_others, delete_like_others,
}
use be_in_crypto_social_api.Infrastructure.Postgres.Repository.{
  PgPool, Server, save, get_like, remove, get_likes_count, get_user_likes,
}

limit_fits : (n : ℕ) → suc n + 1 < 2 ^ 63 → as_i64 ((suc n + 1) % 2 ^ 64) ≡ pos (suc (suc n))
unfolding as_i64
limit_fits n h = ground arith

module _ (server : Server) where
  pub get_likes_count-count :
      (t : ContentType) (i : ContentId) (p : PgPool)
      → p.faults ≡ []
      → get_likes_count server t i p ≡ (ok (count_likes t i p.likes), p)
  unfolding get_likes_count
  get_likes_count-count t i p calm = ground arith

  -- The server has one way to order a single row.
  pub get_like-found :
      (u : UserId) (t : ContentType) (i : ContentId) (p : PgPool) (d : DateTime)
      → ((l : Like) → server.row_order (l ∷ []) ≡ l ∷ [])
      → p.faults ≡ []
      → IsUnique p.likes
      → liked_at u t i p.likes ≡ some d
      → (l : Like) × (get_like server u t i p ≡ (ok l, p)) × (l.created_at ≡ d)
  unfolding get_like liked_at
  get_like-found u t i p d alone calm unique old = elim (rows_of_unique u t i p.likes unique) [
    | inl e ↦ absurd (ground (arith, e))
    | inr (l, e) ↦ (l, ground (arith, e, alone l), ground (arith, e))
  ]

  -- A save of a like that is not there returns `false`.
  pub save-new :
      (l : Like) (p : PgPool)
      → p.faults ≡ []
      → IsUnique p.likes
      → liked_at l.user_id l.content_type l.content_id p.likes ≡ none
      → let (r, p') = save server l p in
        (r ≡ ok false)
        × (count_likes l.content_type l.content_id p'.likes
            ≡ count_likes l.content_type l.content_id p.likes + 1)
        × (liked_at l.user_id l.content_type l.content_id p'.likes
            ≡ some (to_timestamptz l.created_at))
        × (p'.faults ≡ [])
        × IsUnique p'.likes
  unfolding save
  save-new l p calm unique new =
      ground (arith, insert_like_lem (server.uuid_generate p.likes) l p.likes unique new)

  pub save-again :
      (l : Like) (p : PgPool) (d : DateTime)
      → p.faults ≡ []
      → liked_at l.user_id l.content_type l.content_id p.likes ≡ some d
      → save server l p ≡ (ok true, p)
  unfolding save
  save-again l p d calm old =
      ground (arith, insert_like_again (server.uuid_generate p.likes) l p.likes d old)

  pub remove-found :
      (u : UserId) (t : ContentType) (i : ContentId) (p : PgPool) (d : DateTime)
      → p.faults ≡ []
      → IsUnique p.likes
      → liked_at u t i p.likes ≡ some d
      → let (r, p') = remove server u t i p in
        (r ≡ ok true)
        × (count_likes t i p.likes ≡ count_likes t i p'.likes + 1)
        × (liked_at u t i p'.likes ≡ none)
        × (p'.faults ≡ [])
        × IsUnique p'.likes
  unfolding remove
  remove-found u t i p d calm unique old =
      ground (arith, delete_like_lem u t i p.likes d unique old)

  pub remove-absent :
      (u : UserId) (t : ContentType) (i : ContentId) (p : PgPool)
      → p.faults ≡ []
      → liked_at u t i p.likes ≡ none
      → remove server u t i p ≡ (ok false, p)
  unfolding remove
  remove-absent u t i p calm new = ground (arith, delete_like_absent u t i p.likes new)

  -- the likes of the other users after a save and after a delete
  pub save_others :
      (l : Like) (p : PgPool) (u : UserId) (t : ContentType) (i : ContentId)
      → p.faults ≡ []
      → u ≢ l.user_id
      → liked_at u t i (save server l p).1.likes ≡ liked_at u t i p.likes
  unfolding save
  save_others l p u t i calm ne =
      ground (arith, insert_like_others (server.uuid_generate p.likes) l p.likes u t i ne)

  pub remove_others :
      (u u' : UserId) (t t' : ContentType) (i i' : ContentId) (p : PgPool)
      → p.faults ≡ []
      → u' ≢ u
      → liked_at u' t' i' (remove server u t i p).1.likes ≡ liked_at u' t' i' p.likes
  unfolding remove
  remove_others u u' t t' i i' p calm ne =
      ground (arith, delete_like_others u u' t t' i i' p.likes ne)

  -- a page of one row more than a limit above 0
  pub get_user_likes-page :
      (u : UserId) (content_type : Option Text) (c : Option PaginationCursor) (n : ℕ) (p : PgPool)
      → p.faults ≡ []
      → suc n + 1 < 2 ^ 63
      → get_user_likes server u content_type c ((suc n + 1) % 2 ^ 64) p
        ≡ (ok (take (suc (suc n)) (user_likes u content_type c p.likes)), p)
  unfolding get_user_likes
  get_user_likes-page u content_type c n p calm room = rw (limit_fits n room) (ground arith)
