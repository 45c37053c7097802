-- ===== src/Infrastructure/Wiring.antt =====
-- The service as social_api/src/main.rs puts it together: the Postgres repository and the Redis
-- repository over a world that holds the pool and the connection.
pub mod Refinement
pub mod Walk
pub mod Statuses
pub mod Limits
pub mod Batches
pub mod Leaderboards
pub mod Events
pub mod Startup
use be_in_crypto_social_api.Prelude.{ℕ, Text}
use be_in_crypto_social_api.Prelude.Exec.{Result, Exec}
use be_in_crypto_social_api.Domain.Model.{Uuid, DateTime}
use be_in_crypto_social_api.Domain.Ports.{
  LikeDbRepository, LikeCacheRepository, ExternalValidator, Call,
}
use be_in_crypto_social_api.Application.LikeService.Service.{LikeService, State, Mutex}
use be_in_crypto_social_api.Infrastructure.Postgres.Repository.{PgPool, Server, postgres_repository}
use be_in_crypto_social_api.Infrastructure.Redis.Repository.{
  RedisWorld, RedisLikeRepository, redis_repository,
}

pub record World (R : Type 0) : Type 0 where
  pub pg : PgPool
  pub redis : RedisWorld R

module _ {R : Type 0} where
  abbrev pub on_pg : {A : Type 0} → Call PgPool A → Call (World R) A
  on_pg m w = let (r, p) = m w.pg in (r, record w { pg = p })

  abbrev pub on_redis : {A : Type 0} → Call (RedisWorld R) A → Call (World R) A
  on_redis m w = let (r, p) = m w.redis in (r, record w { redis = p })

  -- a repository of the pool, on the world
  unfoldable pub db_on : LikeDbRepository PgPool → LikeDbRepository (World R)
  db_on db = record {
    save = λ l. on_pg (db.save l);
    remove = λ u t i. on_pg (db.remove u t i);
    get_like = λ u t i. on_pg (db.get_like u t i);
    get_likes_by_pairs = λ u items. on_pg (db.get_likes_by_pairs u items);
    get_likes_count = λ t i. on_pg (db.get_likes_count t i);
    get_user_likes = λ u t c n. on_pg (db.get_user_likes u t c n);
    get_counts_batch = λ items. on_pg (db.get_counts_batch items);
    get_top_likes = λ t d n. on_pg (db.get_top_likes t d n);
    health_check = on_pg db.health_check;
  }

  -- a repository of the connection, on the world
  unfoldable pub cache_on : LikeCacheRepository (RedisWorld R) → LikeCacheRepository (World R)
  cache_on c = record {
    increment = λ t i. on_redis (c.increment t i);
    decrement = λ t i. on_redis (c.decrement t i);
    set_value = λ t i n. on_redis (c.set_value t i n);
    get_count = λ t i. on_redis (c.get_count t i);
    get_counts_batch = λ items. on_redis (c.get_counts_batch items);
    set_counts_batch = λ counts. on_redis (c.set_counts_batch counts);
    get_leaderboard_with_canary = λ window t. on_redis (c.get_leaderboard_with_canary window t);
    set_leaderboard_with_canary =
        λ window t items ttl. on_redis (c.set_leaderboard_with_canary window t items ttl);
    acquire_refresh_lock = λ window t. on_redis (c.acquire_refresh_lock window t);
    get_async_pubsub_stream = on_redis c.get_async_pubsub_stream;
    publish_like_event = λ event. on_redis (c.publish_like_event event);
    get_string = λ key. on_redis (c.get_string key);
    set_string = λ key value ttl. on_redis (c.set_string key value ttl);
    health_check = on_redis c.health_check;
  }

  -- the `LikeService::new` of `main`
  unfoldable pub service :
      Server
      → RedisLikeRepository R
      → ExternalValidator (World R)
      → (World R → DateTime)
      → (Mutex → State (World R) → State (World R))
      → LikeService (World R)
  unfolding db_on cache_on postgres_repository redis_repository
  service server repo extern_validator now until_granted = record {
    db_repo = db_on (postgres_repository server);
    cache_repo = cache_on (redis_repository repo);
    extern_repo = extern_validator;
    now = now;
    uuid_text = repo.uuid_text;
    until_granted = until_granted;
  }
