-- ===== src/Application/LikeService/Batch.antt =====
-- `get_likes_count_batch` and `get_batch_status`.
pub mod Leak
use be_in_crypto_social_api.Prelude.{
  ℕ, Text, List, [], ◌∷◌, ◌++◌, map, length, Option, none, some, true, false, ltb, if◌then◌else◌,
  get, insert,
}
use be_in_crypto_social_api.Prelude.Exec.{
  Result, ok, err, Exec, unwrap_or, pure, throw, modify, attempt, ◌>>=◌, ◌>>◌,
}
use be_in_crypto_social_api.Domain.Errors.{DomainError, batch_too_large}
use be_in_crypto_social_api.Domain.Model.{
  DateTime, ContentId, ContentType, UserId, Like, ContentId-discrete, ContentKey,
  ContentKey-discrete,
}
use be_in_crypto_social_api.Domain.Ports.{LikeDbRepository, LikeCacheRepository, Call}
use be_in_crypto_social_api.Api.Dto.{ContentItem, ContentCount, ContentStatus, BatchStatusResponse}
use be_in_crypto_social_api.Application.LikeService.Service.{
  LikeService, State, rehydrate, on_world, spawn, insert_lock, format_lock_key,
}

-- the item with a count
abbrev pub counted : ContentItem → ℕ → ContentCount
counted item count = record {
  content_type = item.content_type;
  content_id = item.content_id;
  count = count;
}

-- The loop over `items`: the results from the cache, and the missing items. The map of cached
-- counts goes by the content id alone.
unfoldable pub split_cached :
    List (ContentId × ℕ) → List ContentItem → List ContentCount × List ContentItem
split_cached cached_counts [] = ([], [])
split_cached cached_counts (item ∷ items) =
    let (results, missing) = split_cached cached_counts items in
    elim (get ContentId-discrete item.content_id cached_counts) [
      | some count ↦ (counted item count ∷ results, missing)
      | none ↦ (results, item ∷ missing)
    ]

-- the loop that fills `liked_map`: a later row replaces an earlier one of the same key
unfoldable pub fill_liked_map :
    List Like → List (ContentKey × DateTime) → List (ContentKey × DateTime)
fill_liked_map [] m = m
fill_liked_map (l ∷ ls) m =
    fill_liked_map ls (insert ContentKey-discrete (l.content_type, l.content_id) l.created_at m)

unfoldable pub status_in : List (ContentKey × DateTime) → ContentItem → ContentStatus
status_in liked_map item =
    elim (get ContentKey-discrete (item.content_type, item.content_id) liked_map) [
      | some created_at ↦ record {
        content_type = item.content_type;
        content_id = item.content_id;
        liked = true;
        liked_at = some created_at;
      }
      | none ↦ record {
        content_type = item.content_type;
        content_id = item.content_id;
        liked = false;
        liked_at = none;
      }
    ]

module _ {W : Type 0} (svc : LikeService W) where
  abbrev add_if_free :
      Option ℕ → Text → ContentItem → List Text × List ContentItem → List Text × List ContentItem
  add_if_free none key item (keys, items) = (key ∷ keys, item ∷ items)
  add_if_free (some _) key item rest = rest

  -- The loop over `missing_items`: the keys that were free, and their items. Every key is locked
  -- anew, also one that was taken.
  unfoldable pub lock_missing :
      List ContentItem → State W → (List Text × List ContentItem) × State W
  lock_missing [] s = (([], []), s)
  lock_missing (item ∷ items) s =
      let key = format_lock_key svc item.content_type item.content_id in
      let (previous, s₁) = insert_lock key s in
      let (rest, s₂) = lock_missing items s₁ in (add_if_free previous key item rest, s₂)

  -- The `if !to_fetch_from_db.is_empty()`. `flight_locks.clone()` copies the entries of the map,
  -- so the spawned task holds a map of its own.
  unfoldable pub fetch_missing :
      List ContentCount → List Text × List ContentItem → Call (State W) (List ContentCount)
  fetch_missing results (locked_keys, []) = pure results
  fetch_missing results (locked_keys, item ∷ items) = do
    db_counts ← on_world (svc.db_repo.get_counts_batch (item ∷ items))
    modify (λ s. spawn (rehydrate db_counts locked_keys s.flight_locks) s)
    pure (results ++ db_counts)

  -- the rest of the method, after the loop over `items`
  unfoldable pub complete_counts :
      List ContentCount × List ContentItem → Call (State W) (List ContentCount)
  unfolding fetch_missing
  complete_counts (results, []) s = pure results s
  complete_counts (results, item ∷ missing) s =
      let (to_fetch, s') = lock_missing (item ∷ missing) s in fetch_missing results to_fetch s'

  unfoldable pub get_likes_count_batch : List ContentItem → Call (State W) (List ContentCount)
  get_likes_count_batch items =
      if ltb 100 (length items) then throw (batch_too_large (length items)) else (do
        cached_counts ← attempt (on_world (svc.cache_repo.get_counts_batch items))
        complete_counts (split_cached (unwrap_or cached_counts []) items))

  unfoldable pub get_batch_status : UserId → List ContentItem → Call (State W) BatchStatusResponse
  get_batch_status user_id items =
      if ltb 100 (length items) then throw (batch_too_large (length items)) else (do
        db_likes ← on_world (svc.db_repo.get_likes_by_pairs user_id items)
        pure (record { results = map (status_in (fill_liked_map db_likes [])) items }))
