-- ===== src/Infrastructure/Wiring/Startup.antt =====
-- `main` and `shutdown_signal` of social_api/src/main.rs: what is made at the start, in which order,
-- what makes the program panic, and what a signal does at the end.
use be_in_crypto_social_api.Prelude.{
  ℕ, ℤ, Text, Text-discrete, codes, ◌≡◌, refl, List, [], ◌∷◌, ◌++◌, Option, none, some, Bool, get,
}
use be_in_crypto_social_api.Prelude.Options.{◌>>=◌}
use be_in_crypto_social_api.Prelude.Exec.{to_option}
use be_in_crypto_social_api.Domain.Model.{DateTime}
use be_in_crypto_social_api.Domain.Ports.{ExternalValidator}
use be_in_crypto_social_api.Application.LikeService.Service.{LikeService, State, Mutex}
use be_in_crypto_social_api.Application.LikeService.Service
use be_in_crypto_social_api.Infrastructure.Validator
use be_in_crypto_social_api.Infrastructure.Validator.{Flight}
use be_in_crypto_social_api.Infrastructure.Breaker
use be_in_crypto_social_api.Infrastructure.Breaker.{CircuitBreaker}
use be_in_crypto_social_api.Infrastructure.Config
use be_in_crypto_social_api.Infrastructure.Config.{Vars, Config}
use be_in_crypto_social_api.Infrastructure.Postgres.Repository.{PgPool, Server}
use be_in_crypto_social_api.Infrastructure.Redis.Keys
use be_in_crypto_social_api.Infrastructure.Redis.Repository.{
  RedisWorld, RedisLikeRepository, present,
}
use be_in_crypto_social_api.Infrastructure.Wiring.{World, service}

-- The parsers of numbers, and the lower case of a text.
pub record Parsers : Type 0 where
  pub u64 : Text → Option ℕ
  pub u16 : Text → Option ℕ
  pub u32 : Text → Option ℕ
  pub i64 : Text → Option ℤ
  -- an `i64` that is not negative
  pub seconds : Text → Option ℕ
  pub to_lowercase : Text → Text
  pub to_string : ℕ → Text

-- What the program finds outside: the database at a URL, its migrations, the Redis client of a URL,
-- with the server behind it, and whether a port is free. `none` is an error.
pub record Outside (R : Type 0) : Type 0 where
  pub connect : (database_url : Text) → (max_connections min_connections : ℕ) → Option PgPool
  pub migrate : PgPool → Option PgPool
  pub open_client : (redis_url : Text) → Option R
  pub bind : (addr : Text) → Option (Unit {0})

abbrev or_default : Text → Option Text → Text
or_default default none = default
or_default default (some value) = value

-- the program before it serves
pub record Program (R : Type 0) : Type 0 where
  pub addr : Text
  pub like_service : LikeService (World R)
  pub state : State (World R)
  pub flight : Flight (World R)
  pub read_per_minute : ℕ
  pub write_per_minute : ℕ

module _ (parse : Parsers) (env : Vars) where
  abbrev config : Option Config
  config = Config.from_env parse.u64 parse.u16 parse.i64 parse.to_lowercase env

  -- `CircuitBreaker::from_env`: its two variables are not those of the configuration
  unfoldable pub breaker_of_env : Option CircuitBreaker
  breaker_of_env = do
    threshold ← parse.u32 (or_default (codes "5") (get Text-discrete (codes "CB_THRESHOLD") env))
    timeout ←
        parse.seconds (or_default (codes "30") (get Text-discrete (codes "CB_TIMEOUT_SECS") env))
    some (Breaker.from_env threshold timeout)

-- What `shutdown_signal` does, in order; the pool has closed, or has not within two seconds.
pub data Signal : Type 0 where
  ctrl_c terminate : Signal

pub data Effect : Type 0 where
  println : Text → Effect
  cancel_token : Effect
  close_pool : (in_time : Bool) → Effect

abbrev received : Signal → Text
received ctrl_c = codes "SIGINT received"
received terminate = codes "SIGTERM received"

unfoldable pub shutdown_signal : Signal → (pool_closes : Bool) → List Effect
shutdown_signal signal pool_closes =
    println (received signal)
    ∷ println (codes "Starting shutdown...")
    ∷ cancel_token
    ∷ close_pool pool_closes
    ∷ println (codes "database pool closed")
    ∷ []

module _ {R : Type 0} (parse : Parsers) (env : Vars) (outside : Outside R) (server : Server)
    (crates : RedisLikeRepository R)
    (extern_validator : Text → List (Text × Text) → ExternalValidator (World R))
    (now : World R → DateTime) (until_granted : Mutex → State (World R) → State (World R)) where
  abbrev ttls : Config → Keys.Config
  ttls c = record {
    cache_ttl_like_counts_secs = c.cache_ttl_like_counts_secs;
    cache_ttl_content_validation_secs = c.cache_ttl_content_validation_secs;
  }

  -- `RedisLikeRepository::new`: a connection that fails is none, which is no error
  unfoldable pub new_repository : R → Option (RedisLikeRepository R × RedisWorld R)
  new_repository client = do
    c ← config parse env
    let (conn, client') = crates.redis.connect client
    some (
      record crates { config = ttls c },
      record { conn = present (to_option conn); server = client' },
    )

  -- `main` up to the loop that serves; none is a panic
  unfoldable pub main : Option (Program R)
  unfolding breaker_of_env new_repository service Service.new Validator.new
  main = do
    c ← config parse env
    pool ← outside.connect c.database_url c.db_max_connections c.db_min_connections
    migrated ← outside.migrate pool
    redis_client ← outside.open_client c.redis_url
    (cache_repo, redis) ← new_repository redis_client
    breaker ← breaker_of_env parse env
    let validator = extern_validator c.profile_api_url c.content_apis
    let addr = codes "0.0.0.0:" ++ parse.to_string c.http_port
    let world : World R = record { pg = migrated; redis = redis }
    _ ← outside.bind addr
    some (record {
      addr = addr;
      like_service = service server cache_repo validator now until_granted;
      state = Service.new world;
      flight = Validator.new breaker world;
      read_per_minute = c.rate_limit_read_per_minute;
      write_per_minute = c.rate_limit_write_per_minute;
    })

  -- With a configuration that can be read, a database that is connected and migrated, a Redis URL
  -- and a free port, the program starts whether or not Redis answers: the cache is then online or
  -- offline, and nothing else depends on it. The breaker is that of `CB_THRESHOLD` and
  -- `CB_TIMEOUT_SECS`, whatever thresholds the configuration holds.
  pub main-starts :
      (c : Config) (pool migrated : PgPool) (client : R) (b : CircuitBreaker)
      → config parse env ≡ some c
      → outside.connect c.database_url c.db_max_connections c.db_min_connections ≡ some pool
      → outside.migrate pool ≡ some migrated
      → outside.open_client c.redis_url ≡ some client
      → breaker_of_env parse env ≡ some b
      → outside.bind (codes "0.0.0.0:" ++ parse.to_string c.http_port) ≡ some tt
      → let (conn, client') = crates.redis.connect client in
        (p : Program R) × (main ≡ some p)
        × (p.flight.breaker ≡ b)
        × (p.state.world ≡ record {
          pg = migrated;
          redis = record { conn = present (to_option conn); server = client' };
        })
        × (p.state.flight_locks ≡ [])
  unfolding main new_repository Service.new Validator.new
  main-starts c pool migrated client b configured connected applied opened breaking bound =
      rw (configured, connected, applied, opened, breaking, bound) (_, refl, refl, refl, refl)
