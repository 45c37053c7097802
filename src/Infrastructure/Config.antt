-- ===== src/Infrastructure/Config.antt =====
-- social_api/src/infrastructure/config.rs: the configuration from the environment, in which the
-- variables of a file `.env` already are. `none` is a panic. Parsing a number and the lower case of
-- a text are the standard library's.
pub mod ContentApis
use be_in_crypto_social_api.Prelude.{
  ℕ, ◌%◌, ◌^◌, ℤ, Text, Text-discrete, codes, List, [], ◌∷◌, Option, none, some, Bool, true, false,
  ◌&&◌, holds, if◌then◌else◌, get, insert,
}
use be_in_crypto_social_api.Api.Middleware.{strip_prefix}

abbrev pub Vars : Type 0
Vars = List (Text × Text)

pub record Config : Type 0 where
  pub read_database_url : Text
  pub database_url : Text
  pub redis_url : Text
  pub db_max_connections : ℕ
  pub db_min_connections : ℕ
  pub db_acquire_timeout_secs : ℕ
  pub redis_pool_size : ℕ
  pub http_port : ℕ
  pub log_level : Text
  pub shutdown_timeout_secs : ℕ
  pub profile_api_url : Text
  pub content_apis : List (Text × Text)
  pub rate_limit_write_per_minute : ℕ
  pub rate_limit_read_per_minute : ℕ
  pub cache_ttl_like_counts_secs : ℤ
  pub cache_ttl_content_validation_secs : ℤ
  pub cb_failure_threshold : ℕ
  pub cb_recovery_timeout_secs : ℕ
  pub cb_success_threshold : ℕ
  pub sse_heartbeat_interval_secs : ℕ
  pub leaderboard_refresh_interval_secs : ℕ

infixl 5 ◌>>=◌
abbrev ◌>>=◌ : {A B : Type 0} → Option A → (A → Option B) → Option B
none >>= f = none
(some a) >>= f = f a

abbrev or_default : Text → Option Text → Text
or_default default none = default
or_default default (some value) = value

abbrev present : Option Text → Bool
present none = false
present (some t) = true

abbrev extend : ℕ → Option Text → Option Text
extend c none = none
extend c (some t) = some (c ∷ t)

-- `strip_suffix`, and `ends_with` by it
unfoldable pub strip_suffix : Text → Text → Option Text
strip_suffix suffix [] = if holds (Text-discrete [] suffix) then some [] else none
strip_suffix suffix (c ∷ cs) =
    let rest = strip_suffix suffix cs in
    if holds (Text-discrete (c ∷ cs) suffix) then some [] else extend c rest

abbrev pub prefix : Text
prefix = codes "CONTENT_API_"

abbrev pub suffix : Text
suffix = codes "_URL"

module _ (to_lowercase : Text → Text) where
  -- `key.starts_with("CONTENT_API_") && key.ends_with("_URL")`
  unfoldable pub names_content_api : Text → Bool
  names_content_api key = present (strip_prefix prefix key) && present (strip_suffix suffix key)

  -- the two `unwrap`s, one after the other, and the lower case
  unfoldable pub content_type_of : Text → Option Text
  content_type_of key = do
    rest ← strip_prefix prefix key
    name ← strip_suffix suffix rest
    some (to_lowercase name)

  -- the loop over `std::env::vars()`
  unfoldable pub read_content_apis : Vars → List (Text × Text) → Option (List (Text × Text))
  unfolding names_content_api content_type_of
  read_content_apis [] apis = some apis
  read_content_apis ((key, value) ∷ vars) apis = elim (names_content_api key) [
    | true ↦ content_type_of key >>= λ content_type.
        read_content_apis vars (insert Text-discrete content_type value apis)
    | false ↦ read_content_apis vars apis
  ]

module _ (parse_u64 parse_u16 : Text → Option ℕ) (parse_i64 : Text → Option ℤ)
    (to_lowercase : Text → Text) (env : Vars) where
  abbrev var : Text → Option Text
  var key = get Text-discrete key env

  abbrev get_u64 : Text → Text → Option ℕ
  get_u64 key default = parse_u64 (or_default default (var key))

  abbrev get_i64 : Text → Text → Option ℤ
  get_i64 key default = parse_i64 (or_default default (var key))

  abbrev as_u32 : ℕ → ℕ
  as_u32 n = n % 2 ^ 32

  unfoldable pub from_env : Option Config
  unfolding read_content_apis
  from_env = do
    read_database_url ← var (codes "READ_DATABASE_URL")
    database_url ← var (codes "DATABASE_URL")
    redis_url ← var (codes "REDIS_URL")
    db_max_connections ← get_u64 (codes "DB_MAX_CONNECTIONS") (codes "20")
    db_min_connections ← get_u64 (codes "DB_MIN_CONNECTIONS") (codes "5")
    db_acquire_timeout_secs ← get_u64 (codes "DB_ACQUIRE_TIMEOUT_SECS") (codes "5")
    redis_pool_size ← get_u64 (codes "REDIS_POOL_SIZE") (codes "10")
    http_port ← parse_u16 (or_default (codes "8080") (var (codes "HTTP_PORT")))
    let log_level = or_default (codes "info") (var (codes "LOG_LEVEL"))
    shutdown_timeout_secs ← get_u64 (codes "SHUTDOWN_TIMEOUT_SECS") (codes "30")
    profile_api_url ← var (codes "PROFILE_API_URL")
    content_apis ← read_content_apis to_lowercase env []
    write_per_minute ← get_u64 (codes "RATE_LIMIT_WRITE_PER_MINUTE") (codes "30")
    read_per_minute ← get_u64 (codes "RATE_LIMIT_READ_PER_MINUTE") (codes "1000")
    like_counts_secs ← get_i64 (codes "CACHE_TTL_LIKE_COUNTS_SECS") (codes "300")
    content_validation_secs ← get_i64 (codes "CACHE_TTL_CONTENT_VALIDATION_SECS") (codes "3600")
    cb_failure_threshold ← get_u64 (codes "CIRCUIT_BREAKER_FAILURE_THRESHOLD") (codes "5")
    cb_recovery_timeout_secs ← get_u64 (codes "CIRCUIT_BREAKER_RECOVERY_TIMEOUT_SECS") (codes "30")
    cb_success_threshold ← get_u64 (codes "CIRCUIT_BREAKER_SUCCESS_THRESHOLD") (codes "3")
    sse_heartbeat_interval_secs ← get_u64 (codes "SSE_HEARTBEAT_INTERVAL_SECS") (codes "15")
    leaderboard_refresh_interval_secs ←
        get_u64 (codes "LEADERBOARD_REFRESH_INTERVAL_SECS") (codes "60")
    some (record {
      read_database_url = read_database_url;
      database_url = database_url;
      redis_url = redis_url;
      db_max_connections = as_u32 db_max_connections;
      db_min_connections = as_u32 db_min_connections;
      db_acquire_timeout_secs = db_acquire_timeout_secs;
      redis_pool_size = as_u32 redis_pool_size;
      http_port = http_port;
      log_level = log_level;
      shutdown_timeout_secs = shutdown_timeout_secs;
      profile_api_url = profile_api_url;
      content_apis = content_apis;
      rate_limit_write_per_minute = write_per_minute;
      rate_limit_read_per_minute = read_per_minute;
      cache_ttl_like_counts_secs = like_counts_secs;
      cache_ttl_content_validation_secs = content_validation_secs;
      cb_failure_threshold = cb_failure_threshold;
      cb_recovery_timeout_secs = cb_recovery_timeout_secs;
      cb_success_threshold = cb_success_threshold;
      sse_heartbeat_interval_secs = sse_heartbeat_interval_secs;
      leaderboard_refresh_interval_secs = leaderboard_refresh_interval_secs;
    })
