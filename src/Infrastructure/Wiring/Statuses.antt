-- ===== src/Infrastructure/Wiring/Statuses.antt =====
-- The statuses of a batch against the likes in the table, and against single requests.
use be_in_crypto_social_api.Prelude.{
  All, ◌≤◌, ◌≡◌, refl, sym, ap, ◌∙◌, List, [], ◌∷◌, map, length, select, Option, none, some, Bool,
  true, false, ◌&&◌, get, insert, get-insert_self, get-insert_ne, inl, inr, arith,
}
use be_in_crypto_social_api.Prelude.Exec.{ok}
use be_in_crypto_social_api.Domain.Model.{
  DateTime, ContentId, ContentType, ContentKey, ContentKey-discrete, UserId, Like,
}
use be_in_crypto_social_api.Api.Dto.{ContentItem, ContentStatus}
use be_in_crypto_social_api.Domain.Ports.{ExternalValidator}
use be_in_crypto_social_api.Application.LikeService.Service.{LikeService, State, Mutex}
use be_in_crypto_social_api.Infrastructure.Postgres.Repository.{
  Server, get_like, get_likes_by_pairs,
}
use be_in_crypto_social_api.Infrastructure.Redis.Repository.{RedisLikeRepository}
use be_in_crypto_social_api.Infrastructure.Wiring.{World, service}
use be_in_crypto_social_api.Application.LikeService.Batch.{
  fill_liked_map, status_in, get_batch_status,
}
use be_in_crypto_social_api.Application.LikeService.Likes.{get_like_status}
use be_in_crypto_social_api.Infrastructure.Postgres.Table.{
  liked_at, rows_of, IsUnique, rows_of_unique,
}
use be_in_crypto_social_api.Infrastructure.Postgres.Sql.{of_content, of_user, of_like, in_items}

-- An order of rows that neither adds nor drops any, told by the tests that at most one row passes.
pub record KeepsRows (order : List Like → List Like) : Type 0 where
  pub one :
      (p : Like → Bool) (rows : List Like) (l : Like)
      → select p rows ≡ l ∷ []
      → select p (order rows) ≡ l ∷ []
  pub nothing :
      (p : Like → Bool) (rows : List Like) → select p rows ≡ [] → select p (order rows) ≡ []

module _ (t : ContentType) (i : ContentId) where
  fill_liked_map-none :
      (rows : List Like) (m : List (ContentKey × DateTime))
      → select (of_content t i) rows ≡ []
      → get ContentKey-discrete (t, i) (fill_liked_map rows m) ≡ get ContentKey-discrete (t, i) m
  unfolding fill_liked_map of_content
  fill_liked_map-none [] m h = refl
  fill_liked_map-none (l ∷ ls) m h = ground (
    arith,
    fill_liked_map-none ls
        (insert ContentKey-discrete (l.content_type, l.content_id) l.created_at m),
    get-insert_ne ContentKey-discrete (l.content_type, l.content_id) (t, i) l.created_at m,
  )

  fill_liked_map-absent :
      (rows : List Like)
      → select (of_content t i) rows ≡ []
      → get ContentKey-discrete (t, i) (fill_liked_map rows []) ≡ none
  unfolding get
  fill_liked_map-absent rows h = fill_liked_map-none rows [] h

  fill_liked_map-one :
      (rows : List Like) (m : List (ContentKey × DateTime)) (k : Like)
      → select (of_content t i) rows ≡ k ∷ []
      → get ContentKey-discrete (t, i) (fill_liked_map rows m) ≡ some k.created_at
  unfolding fill_liked_map of_content
  fill_liked_map-one [] m k h = absurd (ground (arith, h))
  fill_liked_map-one (l ∷ ls) m k h =
      let key : ContentKey = (l.content_type, l.content_id) in
      let m' = insert ContentKey-discrete key l.created_at m in
      ground (
        arith,
        fill_liked_map-none ls m',
        fill_liked_map-one ls m' k,
        get-insert_self ContentKey-discrete key l.created_at m,
      )

  select-select_all :
      (p q r : Like → Bool) (rows : List Like)
      → ((l : Like) → (q l && p l) ≡ r l)
      → select p (select q rows) ≡ select r rows
  select-select_all p q r [] h = refl
  select-select_all p q r (l ∷ ls) h = ground (arith, select-select_all p q r ls h, h l)

-- every row of the item is asked for by the items
abbrev IsAsked : List ContentItem → ContentItem → Type 0
IsAsked items item =
    (l : Like) → of_content item.content_type item.content_id l ≡ true → in_items items l ≡ true

IsAsked-more :
    (first : ContentItem) (items part : List ContentItem)
    → All (IsAsked items) part
    → All (IsAsked (first ∷ items)) part
unfolding in_items
IsAsked-more first items [] h = tt
IsAsked-more first items (item ∷ part) (asked, h) =
    (λ l e. ground (arith, asked l e), IsAsked-more first items part h)

All-IsAsked : (items : List ContentItem) → All (IsAsked items) items
unfolding in_items
All-IsAsked [] = tt
All-IsAsked (item ∷ items) =
    (λ l e. ground (arith, e), IsAsked-more item items items (All-IsAsked items))

abbrev is_some : Option DateTime → Bool
is_some none = false
is_some (some d) = true

abbrev status_with : ContentItem → Option DateTime → ContentStatus
status_with item liked_at = record {
  content_type = item.content_type;
  content_id = item.content_id;
  liked = is_some liked_at;
  liked_at = liked_at;
}

-- the status by the likes in the table
abbrev pub status_by : UserId → List Like → ContentItem → ContentStatus
status_by u rows item = status_with item (liked_at u item.content_type item.content_id rows)

status_in-get :
    (m : List (ContentKey × DateTime)) (item : ContentItem) (o : Option DateTime)
    → get ContentKey-discrete (item.content_type, item.content_id) m ≡ o
    → status_in m item ≡ status_with item o
unfolding status_in
status_in-get m item none h = ground (arith, h)
status_in-get m item (some d) h = ground (arith, h)

module _ (u : UserId) (rows : List Like) (unique : IsUnique rows) (order : List Like → List Like)
    (keeps : KeepsRows order) where
  status_in-status_by :
      (items : List ContentItem) (item : ContentItem)
      → IsAsked items item
      → status_in
          (fill_liked_map (order (select (λ l. of_user u l && in_items items l) rows)) [])
          item
        ≡ status_by u rows item
  unfolding liked_at of_like
  status_in-status_by items item asked =
      let t = item.content_type in
      let i = item.content_id in
      let asked_rows = select (λ l. of_user u l && in_items items l) rows in
      let same : select (of_content t i) asked_rows ≡ rows_of u t i rows =
        select-select_all t i (of_content t i) (λ l. of_user u l && in_items items l)
          (of_like u t i) rows (λ l. ground (arith, asked l)) in
      elim (rows_of_unique u t i rows unique) [
        | inl none_there ↦
            let found : get ContentKey-discrete (t, i) (fill_liked_map (order asked_rows) [])
                ≡ none =
              fill_liked_map-absent t i (order asked_rows)
                (keeps.nothing _ asked_rows (same ∙ none_there)) in
            status_in-get _ item none found ∙ rw none_there refl
        | inr (l, there) ↦
            let found =
              fill_liked_map-one t i (order asked_rows) [] l
                (keeps.one _ asked_rows l (same ∙ there)) in
            status_in-get _ item (some l.created_at) found ∙ rw there refl
      ]

  statuses :
      (items part : List ContentItem)
      → All (IsAsked items) part
      → map
          (status_in
            (fill_liked_map (order (select (λ l. of_user u l && in_items items l) rows)) []))
          part
        ≡ map (status_by u rows) part
  statuses items [] h = refl
  statuses items (item ∷ part) (asked, h) =
      rw (status_in-status_by items item asked, statuses items part h) refl

select-true : (ls : List Like) → select (λ l. true) ls ≡ ls
select-true [] = refl
select-true (l ∷ ls) = ap (◌∷◌ l) (select-true ls)

module _ {R : Type 0} (server : Server) (repo : RedisLikeRepository R)
    (extern_validator : ExternalValidator (World R)) (now : World R → DateTime)
    (until_granted : Mutex → State (World R) → State (World R)) where
  abbrev svc : LikeService (World R)
  svc = service server repo extern_validator now until_granted

  module _ (keeps : KeepsRows server.row_order) (u : UserId) (s : State (World R))
      (calm : s.world.pg.faults ≡ []) (unique : IsUnique s.world.pg.likes) where
    single :
        (t : ContentType) (i : ContentId)
        → let status = status_by u s.world.pg.likes (record { content_type = t; content_id = i }) in
          get_like_status svc u t i s
          ≡ (ok (record { liked = status.liked; liked_at = status.liked_at }), s)
    unfolding get_like_status service get_like liked_at
    single t i = elim (rows_of_unique u t i s.world.pg.likes unique) [
      | inl none_there ↦
          let empty : server.row_order [] ≡ [] =
            sym (select-true (server.row_order [])) ∙ keeps.nothing (λ l. true) [] refl in
          ground (arith, calm, none_there, empty)
      | inr (l, there) ↦
          let alone : server.row_order (l ∷ []) ≡ l ∷ [] =
            sym (select-true (server.row_order (l ∷ []))) ∙ keeps.one (λ x. true) (l ∷ []) l refl in
          ground (arith, calm, there, alone)
    ]

    -- While no query fails, on a table with its unique constraint and in any order of the rows, a
    -- batch of at most 100 items is answered with the status of each item, in the order of the
    -- request: liked exactly if the table has the user's like, with its time. A request for one
    -- item gives the same status, and neither changes anything.
    pub get_batch_status-statuses :
        (items : List ContentItem)
        → length items ≤ 100
        → (get_batch_status svc u items s
            ≡ (ok (record { results = map (status_by u s.world.pg.likes) items }), s))
          × ((t : ContentType) (i : ContentId)
              → let status =
                  status_by u s.world.pg.likes (record { content_type = t; content_id = i }) in
                get_like_status svc u t i s
                ≡ (ok (record { liked = status.liked; liked_at = status.liked_at }), s))
    unfolding get_batch_status service get_likes_by_pairs
    get_batch_status-statuses items few =
        let all =
          statuses u s.world.pg.likes unique server.row_order keeps items items
            (All-IsAsked items) in
        (ground (arith, few, calm, all), single)
