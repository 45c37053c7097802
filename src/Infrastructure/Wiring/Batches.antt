-- ===== src/Infrastructure/Wiring/Batches.antt =====
-- A batch of counts that the cache does not know, against the table.
use be_in_crypto_social_api.Prelude.{
  ℕ, ◌≤◌, ◌<◌, ◌≡◌, ◌≢◌, refl, sym, ap, subst, ◌∙◌, Text, Text-discrete, List, [], ◌∷◌, All, map,
  length, none, some, true, get, insert, get-insert_ne, arith,
}
use mathlib.Core.List.{Perm}
use mathlib.Core.List.Perm
use be_in_crypto_social_api.Prelude.Exec.{Result, ok, unwrap_or}
use be_in_crypto_social_api.Domain.Errors.{DomainError}
use be_in_crypto_social_api.Domain.Model.{DateTime, ContentId, ContentType, ContentKey}
use be_in_crypto_social_api.Domain.Ports.{ExternalValidator}
use be_in_crypto_social_api.Domain.Uuids.{UuidText, keyed-injective}
use be_in_crypto_social_api.Api.Dto.{ContentItem, ContentCount}
use be_in_crypto_social_api.Application.LikeService.Service.{
  LikeService, State, Mutex, insert_lock, format_lock_key,
}
use be_in_crypto_social_api.Application.LikeService.Batch.{
  split_cached, lock_missing, fetch_missing, complete_counts, get_likes_count_batch,
}
use be_in_crypto_social_api.Application.LikeService.Batch.Leak.{
  split_cached-nil, lock_missing-world,
}
use be_in_crypto_social_api.Infrastructure.Postgres.Sql.{distinct_keys}
use be_in_crypto_social_api.Infrastructure.Postgres.Repository.{Server, count_row, get_counts_batch}
use be_in_crypto_social_api.Infrastructure.Redis.Keys.{format_count_key}
use be_in_crypto_social_api.Infrastructure.Redis.Repository as RedisRepository
use be_in_crypto_social_api.Infrastructure.Redis.Repository.{RedisLikeRepository}
use be_in_crypto_social_api.Infrastructure.Wiring.{World, service}
use be_in_crypto_social_api.Infrastructure.Postgres.Counts.{
  key_of, HasDistinctItems, distinct_keys-Perm, All-copies, count_in, count_rows,
}

module _ {W : Type 0} (svc : LikeService W) where
  abbrev lock_of : ContentItem → Text
  lock_of item = format_lock_key svc item.content_type item.content_id

  abbrev pub IsFree : State W → ContentItem → Type 0
  IsFree s item = get Text-discrete (lock_of item) s.flight_locks ≡ none

  IsFree-after :
      (laws : UuidText svc.uuid_text) (item : ContentItem) (items : List ContentItem) (s : State W)
      → All (λ x. key_of x ≢ key_of item) items
      → All (IsFree s) items
      → All (IsFree (insert_lock (lock_of item) s).1) items
  unfolding insert_lock format_lock_key
  IsFree-after laws item [] s ne h = tt
  IsFree-after laws item (x ∷ items) s (apart, ne) (free, h) = (
    get-insert_ne Text-discrete (lock_of item) (lock_of x) s.next_mutex s.flight_locks (λ e. apart (
          same (
            keyed-injective svc.uuid_text x.content_type item.content_type x.content_id
              item.content_id laws (sym (cc e)))))
        ∙ free,
    IsFree-after laws item items s ne h,
  )
    where
      same :
          ((x.content_type ≡ item.content_type) × (x.content_id ≡ item.content_id))
          → key_of x ≡ key_of item
      same (t, i) = λ k. (t k, i k)

  -- items of which none is locked are all fetched
  lock_missing-free :
      (laws : UuidText svc.uuid_text) (items : List ContentItem) (s : State W)
      → HasDistinctItems items
      → All (IsFree s) items
      → (lock_missing svc items s).0 ≡ (map lock_of items, items)
  unfolding lock_missing insert_lock
  lock_missing-free laws [] s distinct h = refl
  lock_missing-free laws (item ∷ items) s (ne, distinct) (free, h) =
      rw
        (
          free,
          lock_missing-free laws items (insert_lock (lock_of item) s).1 distinct
              (IsFree-after laws item items s ne h),
        )
        refl

  fetch_missing-answer :
      (item : ContentItem) (items : List ContentItem) (keys : List Text) (s : State W)
      (counts : List ContentCount) (w : W)
      → svc.db_repo.get_counts_batch (item ∷ items) s.world ≡ (ok counts, w)
      → (fetch_missing svc [] (keys, item ∷ items) s).0 ≡ ok counts
  unfolding fetch_missing
  fetch_missing-answer item items keys s counts w answered = ground (arith, answered)

  -- a batch of which the cache knows nothing and no item is locked
  complete_counts-free :
      (items : List ContentItem) (s : State W) (counts : List ContentCount) (w : W)
      → UuidText svc.uuid_text
      → HasDistinctItems items
      → All (IsFree s) items
      → 0 < length items
      → svc.db_repo.get_counts_batch items s.world ≡ (ok counts, w)
      → (complete_counts svc ([], items) s).0 ≡ ok counts
  unfolding complete_counts
  complete_counts-free [] s counts w laws distinct free some_item answered =
      absurd (omega (arith, some_item))
  complete_counts-free (item ∷ items) s counts w laws distinct free some_item answered =
      let s₁ = (lock_missing svc (item ∷ items) s).1 in
      let kept : s₁.world ≡ s.world = (lock_missing-world svc (item ∷ items) s).0 in
      rw (lock_missing-free laws (item ∷ items) s distinct free) (
        fetch_missing-answer item items (map lock_of (item ∷ items)) s₁ counts w
          (ap (svc.db_repo.get_counts_batch (item ∷ items)) kept ∙ answered))

  get_likes_count_batch-free :
      (items : List ContentItem) (s : State W) (counts : List ContentCount) (w : W)
      (r : Result DomainError (List (ContentId × ℕ)))
      → UuidText svc.uuid_text
      → 0 < length items
      → length items ≤ 100
      → HasDistinctItems items
      → All (IsFree s) items
      → svc.cache_repo.get_counts_batch items s.world ≡ (r, s.world)
      → unwrap_or r [] ≡ []
      → svc.db_repo.get_counts_batch items s.world ≡ (ok counts, w)
      → (get_likes_count_batch svc items s).0 ≡ ok counts
  unfolding get_likes_count_batch
  get_likes_count_batch-free items s counts w r laws some_item few distinct free read unknown
        answered =
      let done = complete_counts-free items s counts w laws distinct free some_item answered in
      ground (arith, few, read, unknown, split_cached-nil items, done)

module _ {R : Type 0} (server : Server) (repo : RedisLikeRepository R)
    (extern_validator : ExternalValidator (World R)) (now : World R → DateTime)
    (until_granted : Mutex → State (World R) → State (World R)) where
  abbrev svc : LikeService (World R)
  svc = service server repo extern_validator now until_granted

  -- the query of all the items
  queried :
      (items : List ContentItem) (w : World R)
      → w.pg.faults ≡ []
      → 0 < length items
      → svc.db_repo.get_counts_batch items w
        ≡ (ok (map (count_row server items w.pg.likes) (server.key_order (distinct_keys items))), w)
  unfolding service get_counts_batch
  queried [] w calm some_item = absurd (omega (arith, some_item))
  queried (item ∷ items) w calm some_item = ground (arith, calm)

  -- A batch of 1 to 100 distinct items that the cache does not know, or while it is down, of which
  -- none is locked and while no query fails, is answered with one count for each item, that of its
  -- likes in the table, in some order. The texts of UUIDs are of 36 characters and distinct, and the
  -- server may put the groups in any order.
  pub get_likes_count_batch-cold :
      (items : List ContentItem) (s : State (World R))
      (r : Result DomainError (List (ContentId × ℕ)))
      → UuidText repo.uuid_text
      → ((keys : List ContentKey) → Perm (server.key_order keys) keys)
      → 0 < length items
      → length items ≤ 100
      → HasDistinctItems items
      → All (IsFree svc s) items
      → s.world.pg.faults ≡ []
      → svc.cache_repo.get_counts_batch items s.world ≡ (r, s.world)
      → unwrap_or r [] ≡ []
      → (counts : List ContentCount) × ((get_likes_count_batch svc items s).0 ≡ ok counts)
        × Perm counts (map (count_in s.world.pg.likes) items)
  unfolding service
  get_likes_count_batch-cold items s r laws order some_item few distinct free calm read unknown = (
    map (count_row server items s.world.pg.likes) (server.key_order (distinct_keys items)),
    get_likes_count_batch-free svc items s _ s.world r laws some_item few distinct free read unknown
        (queried items s.world calm some_item),
    subst
        (λ (counts : List ContentCount).
          Perm
            (map (count_row server items s.world.pg.likes) (server.key_order (distinct_keys items)))
            counts)
        (count_rows server s.world.pg.likes items items (All-copies items distinct))
        (Perm.map (count_row server items s.world.pg.likes)
          (Perm.trans (order (distinct_keys items)) (distinct_keys-Perm items distinct))),
  )

  -- Two items of one content id and of two content types whose counts are both cached: the map of
  -- the cached counts has one entry for both, so each is answered with the count of the second.
  pub get_likes_count_batch-mixed :
      (t t' : ContentType) (i : ContentId) (n m : ℕ) (s : State (World R))
      → s.world.redis.conn ≡ true
      → repo.redis.mget_u64
          (format_count_key repo.uuid_text t i ∷ format_count_key repo.uuid_text t' i ∷ [])
          s.world.redis.server
        ≡ (ok (some n ∷ some m ∷ []), s.world.redis.server)
      → get_likes_count_batch svc
          (record { content_type = t; content_id = i }
            ∷ record { content_type = t'; content_id = i }
            ∷ [])
          s
        ≡ (
          ok (
              record { content_type = t; content_id = i; count = m }
              ∷ record { content_type = t'; content_id = i; count = m }
              ∷ []),
          s,
        )
  unfolding get_likes_count_batch service RedisRepository.redis_repository
      RedisRepository.get_counts_batch RedisRepository.send_or RedisRepository.collect_counts
      split_cached complete_counts get insert
  get_likes_count_batch-mixed t t' i n m s up cached = ground (arith, up, cached)
