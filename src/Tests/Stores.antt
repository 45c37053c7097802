-- ===== src/Tests/Stores.antt =====
-- Batches, pages and the leaderboard of post 7, and the statements on its rows.
use be_in_crypto_social_api.Prelude.{
  ℕ, ◌≡◌, refl, List, [], ◌∷◌, Option, none, some, true, get, arith,
}
use be_in_crypto_social_api.Prelude.Exec.{ok}
use be_in_crypto_social_api.Domain.Model.{ContentId-discrete}
use be_in_crypto_social_api.Api.Dto.{ContentItem, CursorCodec, PaginationCursor}
use be_in_crypto_social_api.Application.LikeService.Service.{State, insert_lock}
use be_in_crypto_social_api.Application.LikeService.Tasks.{run_task, run_tasks, run_spawned}
use be_in_crypto_social_api.Application.LikeService.Batch.{
  split_cached, lock_missing, fetch_missing, complete_counts, get_likes_count_batch,
}
use be_in_crypto_social_api.Application.LikeService.Batch.Leak.{second_batch_omits}
use be_in_crypto_social_api.Application.LikeService.Listing.Pages.{CodecLaws}
use be_in_crypto_social_api.Application.LikeService.Backend.{CacheLaws, DbLaws}
use be_in_crypto_social_api.Infrastructure.Postgres.Sql.{copies, distinct_keys, add_key}
use be_in_crypto_social_api.Infrastructure.Postgres.Repository
use be_in_crypto_social_api.Infrastructure.Redis.Repository as RedisRepository
use be_in_crypto_social_api.Infrastructure.Wiring.{World, service}
use be_in_crypto_social_api.Infrastructure.Wiring.Refinement.{wired_view, cache_laws, db_laws}
use be_in_crypto_social_api.Tests.Fixtures.{
  Shelf, svc, server, repository, accepting, redis_laws, state_of, like_by, alice, post, seven,
  empty,
}

cache_laws_example :
    CacheLaws svc
      (wired_view server repository accepting (λ w. 1000) (λ mutex s. s) redis_laws 299 refl)
cache_laws_example =
    cache_laws server repository accepting (λ w. 1000) (λ mutex s. s) redis_laws 299 refl

db_laws_example :
    DbLaws svc
      (wired_view server repository accepting (λ w. 1000) (λ mutex s. s) redis_laws 299 refl)
db_laws_example =
    db_laws server repository accepting (λ w. 1000) (λ mutex s. s) redis_laws 299 refl (λ l. refl)

abbrev items : List ContentItem
items = record { content_type = post; content_id = seven } ∷ []

-- the counts in the cache have expired whenever a batch is read
abbrev expired : State (World Shelf)
expired = state_of (like_by alice ∷ []) true empty

abbrev later : State (World Shelf)
later = run_spawned svc (get_likes_count_batch svc items expired).1

second_batch_omits_example :
    let (r, s'') = get_likes_count_batch svc items later in (r ≡ ok []) × (s''.world ≡ later.world)
unfolding service RedisRepository.redis_repository RedisRepository.get_counts_batch
    RedisRepository.collect_counts RedisRepository.send_or RedisRepository.set_counts_batch
    Repository.postgres_repository Repository.get_counts_batch Repository.query Repository.count_row
    copies distinct_keys add_key get_likes_count_batch run_spawned run_tasks run_task
    complete_counts fetch_missing lock_missing insert_lock split_cached get ContentId-discrete
second_batch_omits_example =
    second_batch_omits svc items expired expired.world later.world (omega arith) refl refl

abbrev from_numbers : List ℕ → Option PaginationCursor
from_numbers (t ∷ id ∷ []) = some (record { t = t; id = id })
from_numbers _ = none

-- codecs that write a cursor as its two numbers
abbrev pub codec : CursorCodec
codec = record {
  base64_encode = λ bytes. bytes;
  base64_decode = λ text. some text;
  to_json = λ c. c.t ∷ c.id ∷ [];
  from_json = from_numbers;
}

pub codec_laws : CodecLaws codec
codec_laws = record { base64_lem = λ bytes. refl; json_lem = λ c. refl }
