-- ===== src/Infrastructure/Wiring/Walk.antt =====
-- A client that reads a user's likes page by page, by the cursor of each response.
use be_in_crypto_social_api.Prelude.{
  ℕ, zero, suc, ◌+◌, ◌-◌, ◌^◌, ◌<◌, ◌≤◌, ltb, ltb→lt, Text, ◌≡◌, refl, sym, ap, ◌∙◌, List, [], ◌++◌,
  map, length, take, take_all, take-take, length-take, drop, drop-drop, length-drop,
  take_append_drop, get_elem?, get_elem?-take, select, ◌&&◌, true, Option, none, some, Bool-cases,
  inl, inr, arith,
}
use mathlib.Core.List.{map-append, Perm}
use be_in_crypto_social_api.Prelude.Exec.{Result, ok, err}
use be_in_crypto_social_api.Domain.Model.{DateTime, UserId, Like}
use be_in_crypto_social_api.Domain.Ports.{ExternalValidator}
use be_in_crypto_social_api.Domain.Errors.{Failure}
use be_in_crypto_social_api.Api.Dto.{
  UserLikesResponse, LikedItemDto, PaginationCursor, CursorCodec, decode_opt, encode_cursor,
  liked_item,
}
use be_in_crypto_social_api.Application.LikeService.Service.{LikeService, State, Mutex}
use be_in_crypto_social_api.Application.LikeService.Listing.{page_of, get_user_liked_items}
use be_in_crypto_social_api.Application.LikeService.Listing.Pages.{
  CodecLaws, decode_opt-encode_cursor, page_of_lem,
}
use be_in_crypto_social_api.Infrastructure.Postgres.Sql.{of_user, of_type, user_likes}
use be_in_crypto_social_api.Infrastructure.Postgres.Order.{IsDesc, HasDistinctIds}
use be_in_crypto_social_api.Infrastructure.Postgres.Paging.{
  cursor_of, StandsAt, start, user_likes-IsDesc, user_likes-drop, StandsAt-next,
}
use be_in_crypto_social_api.Infrastructure.Postgres.Calls.{get_user_likes-page}
use be_in_crypto_social_api.Infrastructure.Postgres.Repository.{Server}
use be_in_crypto_social_api.Infrastructure.Redis.Repository.{RedisLikeRepository}
use be_in_crypto_social_api.Infrastructure.Wiring.{World, service}

-- The client: it asks for the first page, and then for the page of each cursor that it is given,
-- until a page has none. `none` says that a request failed or that it gave up.
module _ {W : Type 0} (codec : CursorCodec) (svc : LikeService W) (u : UserId)
    (content_type : Option Text) (limit : ℕ) where
  unfoldable pub walk : ℕ → Option Text → State W → Option (List LikedItemDto)
  walk zero cursor s = none
  walk (suc fuel) cursor s =
      let (r, s') = get_user_liked_items codec svc u content_type cursor limit s in
      elim r [
        | err e ↦ none
        | ok page ↦ elim page.next_cursor [
          | none ↦ some page.items
          | some next ↦ elim (walk fuel (some next) s') [
            | none ↦ none
            | some rest ↦ some (page.items ++ rest)
          ]
        ]
      ]

module _ {R : Type 0} (codec : CursorCodec) (server : Server) (repo : RedisLikeRepository R)
    (extern_validator : ExternalValidator (World R)) (now : World R → DateTime)
    (until_granted : Mutex → State (World R) → State (World R)) where
  abbrev svc : LikeService (World R)
  svc = service server repo extern_validator now until_granted

  module _ (u : UserId) (content_type : Option Text) (n : ℕ) (s : State (World R))
      (laws : CodecLaws codec) (calm : s.world.pg.faults ≡ [])
      (distinct : HasDistinctIds s.world.pg.likes) (room : suc n + 1 < 2 ^ 63) where
    abbrev all_likes : List Like
    all_likes = user_likes u content_type none s.world.pg.likes

    -- one request: the page over the rows behind the cursor, and nothing changes
    page_at :
        (c : Option PaginationCursor) (k : ℕ) (cursor : Option Text)
        → StandsAt u content_type s.world.pg.likes distinct c k
        → decode_opt codec cursor ≡ ok c
        → get_user_liked_items codec svc u content_type cursor (suc n) s
          ≡ (page_of codec svc (take (suc (suc n)) (drop k all_likes)) (suc n), s)
    unfolding get_user_liked_items service
    page_at c k cursor at read = ground (
      arith,
      read,
      get_user_likes-page server u content_type c n s.world.pg calm room,
      user_likes-drop u content_type s.world.pg.likes distinct c k at,
    )

    abbrev shown : List Like → List LikedItemDto
    shown = map (liked_item repo.uuid_text)

    -- a page that has all the rows that are left
    last_page :
        (rest : List Like)
        → length rest ≤ suc n
        → page_of codec svc (take (suc (suc n)) rest) (suc n)
          ≡ ok (record { items = shown rest; next_cursor = none })
    unfolding service
    last_page rest few =
        let rows : take (suc (suc n)) rest ≡ rest = take_all (suc (suc n)) rest (omega arith) in
        let (r, page, items, more, last) = page_of_lem codec svc rest n in
        let all : r.items ≡ shown rest = items ∙ ap shown (take_all (suc n) rest few) in
        rw (rows, page) (λ i. ok (record { items = all i; next_cursor = last few i }))

    -- a page with more rows behind it
    first_page :
        (rest : List Like)
        → suc n < length rest
        → (l : Like) × (get_elem? rest n ≡ some l)
          × (page_of codec svc (take (suc (suc n)) rest) (suc n)
              ≡ ok (record {
                items = shown (take (suc n) rest);
                next_cursor = some (encode_cursor codec (cursor_of l));
              }))
    unfolding service
    first_page rest many =
        let (r, page, items, more, last) = page_of_lem codec svc (take (suc (suc n)) rest) n in
        let (l, found, next) = more (omega (arith, length-take (suc (suc n)) rest)) in
        let firsts : r.items ≡ shown (take (suc n) rest) =
          items ∙ ap shown (take-take (suc n) (suc (suc n)) rest (omega arith)) in
        (
          l,
          sym (get_elem?-take n (suc (suc n)) rest (omega arith)) ∙ found,
          page ∙ (λ i. ok (record { items = firsts i; next_cursor = next i })),
        )

    abbrev Reply : Type 0
    Reply = Result Failure UserLikesResponse × State (World R)

    walk_from :
        (fuel : ℕ) (c : Option PaginationCursor) (k : ℕ) (cursor : Option Text)
        → StandsAt u content_type s.world.pg.likes distinct c k
        → decode_opt codec cursor ≡ ok c
        → length (drop k all_likes) < fuel
        → walk codec svc u content_type (suc n) fuel cursor s ≡ some (shown (drop k all_likes))
    unfolding walk
    walk_from zero c k cursor at read enough = absurd (omega arith)
    walk_from (suc fuel) c k cursor at read enough =
        let rest = drop k all_likes in
        elim (Bool-cases (ltb (suc n) (length rest))) [
          | inl many ↦
              let left : suc n < length rest = ltb→lt (suc n) (length rest) many in
              let (l, found, page) = first_page rest left in
              let behind : drop (suc n) rest ≡ drop (suc (k + n)) all_likes =
                drop-drop k (suc n) all_likes
                ∙ ap (λ (m : ℕ). drop m all_likes) {y = suc (k + n)} (omega arith) in
              let ahead : length (drop (suc (k + n)) all_likes) ≡ length rest - suc n =
                ap length (sym behind) ∙ length-drop (suc n) rest in
              let onwards =
                walk_from fuel (some (cursor_of l)) (suc (k + n))
                  (some (encode_cursor codec (cursor_of l)))
                  (StandsAt-next u content_type s.world.pg.likes distinct c k n l at found)
                  (decode_opt-encode_cursor codec (cursor_of l) laws) (omega arith) in
              let joined : shown (take (suc n) rest) ++ shown (drop (suc n) rest) ≡ shown rest =
                sym (map-append (liked_item repo.uuid_text) (take (suc n) rest) (drop (suc n) rest))
                ∙ ap shown (take_append_drop (suc n) rest) in
              let asked = page_at c k cursor at read ∙ ap (λ r. (r, s)) page in
              rw (asked, walk)
                (rw (ap (λ (p : Reply). p.1) asked, walk)
                  (rw (onwards, walk) (rw (← behind) (ap some joined))))
          | inr few ↦
              let asked =
                page_at c k cursor at read
                ∙ ap (λ r. (r, s)) (last_page rest (ground (arith, few))) in
              rw (asked, walk) refl
        ]

    -- With a limit above 0 and below 2^63 - 1, codecs that read back the cursors that they have
    -- written, and while no query fails and the rows, of distinct identifiers, stay as they are, a
    -- client that starts with no cursor and follows the cursors for more rounds than there
    -- are likes to read is shown the user's rows of the table (of one content type, if one is
    -- given), each once, in the descending order of time and identifier.
    pub walk_complete :
        (fuel : ℕ)
        → length all_likes < fuel
        → (ls : List Like) × (walk codec svc u content_type (suc n) fuel none s ≡ some (shown ls))
          × IsDesc ls
          × Perm ls (select (λ l. of_user u l && (of_type content_type l && true)) s.world.pg.likes)
    walk_complete fuel enough = (
      all_likes,
      walk_from fuel none 0 none start (unfold decode_opt in refl) enough,
      (user_likes-IsDesc u content_type s.world.pg.likes distinct).0,
      (user_likes-IsDesc u content_type s.world.pg.likes distinct).1,
    )
