-- ===== src/Tests/Environment.antt =====
-- An environment with the required variables, and one content service.
use be_in_crypto_social_api.Prelude.{
  ℕ, ℕ_discrete, ℤ, pos, ◌≡◌, refl, Text, Text-discrete, codes, [], ◌∷◌, Option, none, some, get,
  insert,
}
use be_in_crypto_social_api.Api.Middleware.{strip_prefix}
use be_in_crypto_social_api.Infrastructure.Config.{
  Vars, Config, strip_suffix, names_content_api, content_type_of, read_content_apis, from_env,
}
use be_in_crypto_social_api.Infrastructure.Config.ContentApis.{from_env-panics, from_env-get}

abbrev number : Text → Option ℕ
number t = some 7

abbrev signed : Text → Option ℤ
signed t = some (pos 7)

abbrev lower : Text → Text
lower t = t

abbrev required : Vars
required =
    (codes "READ_DATABASE_URL", codes "r")
    ∷ (codes "DATABASE_URL", codes "d")
    ∷ (codes "REDIS_URL", codes "s")
    ∷ (codes "PROFILE_API_URL", codes "p")
    ∷ []

from_env-panics_example :
    from_env number number signed lower
      ((codes "REDIS_URL", codes "s") ∷ (codes "CONTENT_API_URL", codes "http://c") ∷ required)
    ≡ none
from_env-panics_example =
    from_env-panics lower number number signed ((codes "REDIS_URL", codes "s") ∷ []) required
      (codes "http://c")

abbrev config : Config
config = record {
  read_database_url = codes "r";
  database_url = codes "d";
  redis_url = codes "s";
  db_max_connections = 7;
  db_min_connections = 7;
  db_acquire_timeout_secs = 7;
  redis_pool_size = 7;
  http_port = 7;
  log_level = codes "info";
  shutdown_timeout_secs = 7;
  profile_api_url = codes "p";
  content_apis = (codes "POST", codes "http://c") ∷ [];
  rate_limit_write_per_minute = 7;
  rate_limit_read_per_minute = 7;
  cache_ttl_like_counts_secs = pos 7;
  cache_ttl_content_validation_secs = pos 7;
  cb_failure_threshold = 7;
  cb_recovery_timeout_secs = 7;
  cb_success_threshold = 7;
  sse_heartbeat_interval_secs = 7;
  leaderboard_refresh_interval_secs = 7;
}

from_env-get_example :
    get Text-discrete (codes "POST") config.content_apis ≡ some (codes "http://c")
unfolding from_env read_content_apis names_content_api content_type_of strip_prefix strip_suffix
    Text-discrete ℕ_discrete get insert
from_env-get_example =
    from_env-get lower number number signed [] required (codes "POST") (codes "http://c") config
      ((λ e. cc), ((λ e. cc), ((λ e. cc), ((λ e. cc), tt)))) refl
