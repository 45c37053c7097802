-- ===== src/Tests/Batches.antt =====
-- A batch of statuses of Bob, who likes post 7 and not post 8, and a leaderboard of both.
use be_in_crypto_social_api.Prelude.{
  ◌≡◌, refl, ap, codes, Text-discrete, ℕ_discrete, List, [], ◌∷◌, ◌++◌, map, select, true, false,
  pos, get, none, some, ◌&&◌, ◌⊎◌, length, or_zero, arith,
}
use mathlib.Core.List.{Perm}
use mathlib.Core.List.Perm
use be_in_crypto_social_api.Prelude.Exec.{ok, err}
use be_in_crypto_social_api.Domain.Model.{
  ContentKey, Like, ContentId, ContentType, ContentKey-discrete,
}
use be_in_crypto_social_api.Api.Dto.{ContentItem, ContentCount}
use be_in_crypto_social_api.Domain.Errors.{cache_offline}
use be_in_crypto_social_api.Infrastructure.Redis.Repository as RedisRepository
use be_in_crypto_social_api.Infrastructure.Wiring.Batches.{
  get_likes_count_batch-cold, get_likes_count_batch-mixed,
}
use be_in_crypto_social_api.Infrastructure.Redis.Keys.{format_count_key}
use be_in_crypto_social_api.Application.LikeService.Service.{State}
use be_in_crypto_social_api.Application.LikeService.Batch.{get_batch_status, get_likes_count_batch}
use be_in_crypto_social_api.Application.LikeService.Likes.{get_like_status}
use be_in_crypto_social_api.Infrastructure.Postgres.Sql.{
  of_like, of_type, since_time, group_counts, count_likes,
}
use be_in_crypto_social_api.Infrastructure.Postgres.Counts.{count_in}
use be_in_crypto_social_api.Infrastructure.Postgres.Repository.{PgPool, get_top_likes, top_item}
use be_in_crypto_social_api.Infrastructure.Postgres.Top.{
  Group, IsRanked, HasDistinctKeys, get_top_likes-IsRanked,
}
use be_in_crypto_social_api.Infrastructure.Wiring.{World, service}
use be_in_crypto_social_api.Infrastructure.Wiring.Statuses.{
  KeepsRows, status_by, get_batch_status-statuses,
}
use be_in_crypto_social_api.Tests.Fixtures.{
  Shelf, svc, server, repository, accepting, state_of, like_by, uuid_text, uuid_text_laws, alice,
  bob, post, seven, empty,
}

keeps : KeepsRows server.row_order
keeps = record { one = λ p rows l h. h; nothing = λ p rows h. h }

abbrev posts : List ContentItem
posts =
    record { content_type = post; content_id = seven }
    ∷ record { content_type = post; content_id = record { uuid = 8 } }
    ∷ []

abbrev two_fans : State (World Shelf)
two_fans = state_of (like_by alice ∷ like_by bob ∷ []) true empty

get_batch_status-statuses_example :
    (get_batch_status svc bob posts two_fans
      ≡ (ok (record { results = map (status_by bob two_fans.world.pg.likes) posts }), two_fans))
    × ((t : ContentType) (i : ContentId)
        → let status =
            status_by bob two_fans.world.pg.likes (record { content_type = t; content_id = i }) in
          get_like_status svc bob t i two_fans
          ≡ (ok (record { liked = status.liked; liked_at = status.liked_at }), two_fans))
unfolding of_like ContentKey-discrete
get_batch_status-statuses_example =
    get_batch_status-statuses server repository accepting (λ w. 1000) (λ mutex s. s) keeps bob
      two_fans refl (refl, (refl, tt)) posts (omega arith)

-- two likes of post 7 and one of post 8
abbrev pool : PgPool
pool = record {
  likes =
      like_by alice
      ∷ record (like_by alice) { content_id = record { uuid = 8 } }
      ∷ like_by bob
      ∷ [];
  faults = [];
}

abbrev counted_rows : List Like
counted_rows = select (λ l. of_type none l && since_time (some 5) l) pool.likes

get_top_likes-IsRanked_example :
    (shown : List Group) × (rest : List Group) × (get_top_likes server none (some 5) (pos 1) pool
      ≡ (ok (map (top_item server) shown), pool))
    × IsRanked (shown ++ rest)
    × Perm (shown ++ rest) (group_counts counted_rows)
    × ((rest ≡ []) ⊎ (length shown ≡ 1))
    × HasDistinctKeys (group_counts counted_rows)
    × ((t : ContentType) (i : ContentId)
        → or_zero (get ContentKey-discrete (t, i) (group_counts counted_rows))
          ≡ count_likes t i counted_rows)
get_top_likes-IsRanked_example =
    get_top_likes-IsRanked server none (some 5) 1 pool (λ groups. Perm.refl groups) refl

-- the same batch of counts, while the cache is down
abbrev down : State (World Shelf)
down = state_of (like_by alice ∷ like_by bob ∷ []) false empty

eight : ¬ (◌≡◌ {A = ContentKey} (post, record { uuid = 8 }) (post, seven))
eight e = absurd (omega (arith, ap (λ (k : ContentKey). k.1.uuid) e))

get_likes_count_batch-cold_example :
    (counts : List ContentCount) × ((get_likes_count_batch svc posts down).0 ≡ ok counts)
    × Perm counts (map (count_in down.world.pg.likes) posts)
unfolding service RedisRepository.redis_repository RedisRepository.get_counts_batch
    RedisRepository.send_or get
get_likes_count_batch-cold_example =
    get_likes_count_batch-cold server repository accepting (λ w. 1000) (λ mutex s. s) posts down
      (err cache_offline) uuid_text_laws (λ keys. Perm.refl keys) (omega arith) (omega arith)
      (((λ e. absurd (eight e)), tt), (tt, tt)) (refl, (refl, tt)) refl refl refl

abbrev video : ContentType
video = record { as_str = codes "video" }

-- post 7 has 3 likes, and video 7 has 5
abbrev both_cached : State (World Shelf)
both_cached = state_of [] true (record empty {
  numbers = (codes "count:post:" ++ uuid_text 7, 3) ∷ (codes "count:video:" ++ uuid_text 7, 5) ∷ [];
  batches_expired = false;
})

get_likes_count_batch-mixed_example :
    get_likes_count_batch svc
      (record { content_type = post; content_id = seven }
        ∷ record { content_type = video; content_id = seven }
        ∷ [])
      both_cached
    ≡ (
      ok (
          record { content_type = post; content_id = seven; count = 5 }
          ∷ record { content_type = video; content_id = seven; count = 5 }
          ∷ []),
      both_cached,
    )
unfolding format_count_key get Text-discrete ℕ_discrete
get_likes_count_batch-mixed_example =
    get_likes_count_batch-mixed server repository accepting (λ w. 1000) (λ mutex s. s) post video
      seven 3 5 both_cached refl refl
