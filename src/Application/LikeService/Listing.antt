-- ===== src/Application/LikeService/Listing.antt =====
-- `get_user_liked_items`: one page of a user's likes, and the cursor of the next one.
pub mod Pages
use be_in_crypto_social_api.Prelude.{
  ℕ, zero, suc, ◌+◌, ◌-◌, ◌%◌, ◌^◌, Text, List, map, length, get_elem?, take, Option, none, some,
  ltb, if◌then◌else◌,
}
use be_in_crypto_social_api.Prelude.Exec.{Result, ok, err, Exec, pure, throw, lift, ◌>>=◌}
use be_in_crypto_social_api.Domain.Errors.{DomainError, Failure, domain, panicked}
use be_in_crypto_social_api.Domain.Model.{UserId, Like}
use be_in_crypto_social_api.Domain.Ports.{LikeDbRepository, Call}
use be_in_crypto_social_api.Api.Dto.{
  UserLikesResponse, PaginationCursor, CursorCodec, decode_opt, encode_cursor, liked_item,
}
use be_in_crypto_social_api.Application.LikeService.Service.{LikeService, State, on_world}

-- `?` in a method that may also panic
abbrev or_domain : {A : Type 0} → Result DomainError A → Result Failure A
or_domain (ok a) = ok a
or_domain (err e) = err (domain e)

abbrev fallible : {S A : Type 0} → Exec DomainError S A → Exec Failure S A
fallible m s = let (r, s') = m s in (or_domain r, s')

module _ {W : Type 0} (codec : CursorCodec) (svc : LikeService W) where
  -- the cursor of `items[limit - 1]`; at limit 0 the subtraction or the index is out of range
  unfoldable pub cursor_at : List Like → ℕ → Result Failure Text
  cursor_at items zero = err panicked
  cursor_at items (suc i) = elim (get_elem? items i) [
    | none ↦ err panicked
    | some last_item ↦
        ok (encode_cursor codec (record { t = last_item.created_at; id = last_item.id }))
  ]

  -- the `if items.len() > limit`, and the response
  unfoldable pub page_of : List Like → ℕ → Result Failure UserLikesResponse
  unfolding cursor_at
  page_of items limit =
      if ltb limit (length items)
      then elim (cursor_at items limit) [
        | ok cursor ↦ ok (record {
          items = map (liked_item svc.uuid_text) (take limit items);
          next_cursor = some cursor;
        })
        | err e ↦ err e
      ]
      else ok (record { items = map (liked_item svc.uuid_text) items; next_cursor = none })

  -- `limit + 1` is a sum of `usize`
  unfoldable pub get_user_liked_items :
      UserId → Option Text → Option Text → ℕ → Exec Failure (State W) UserLikesResponse
  get_user_liked_items user_id content_type cursor_str limit = do
    cursor ← fallible (lift (decode_opt codec cursor_str))
    items ←
        fallible
          (on_world (svc.db_repo.get_user_likes user_id content_type cursor ((limit + 1) % 2 ^ 64)))
    lift (page_of items limit)
