-- ===== src/Tests/Fixtures.antt =====
-- A Redis server of counters and strings, on which nothing expires unless a list says so, and the
-- service of social_api/src/main.rs over it.
use be_in_crypto_social_api.Prelude.{
  ℕ, suc, ◌+◌, ◌-◌, pos, Text, Text-discrete, codes, ◌≡◌, refl, ap, ◌∙◌, List, [], ◌∷◌, ◌++◌, map,
  length, Option, none, some, Bool, true, false, or_zero, get, insert, get-insert_self, arith,
}
use be_in_crypto_social_api.Prelude.Exec.{Result, ok, pure}
use be_in_crypto_social_api.Domain.Model.{Uuid, ContentId, ContentType, UserId, Like}
use be_in_crypto_social_api.Domain.Ports.{ExternalValidator}
use be_in_crypto_social_api.Domain.Uuids.{UuidText}
use be_in_crypto_social_api.Application.LikeService.Service.{LikeService, State}
use be_in_crypto_social_api.Application.LikeService.Backend.{Backend}
use be_in_crypto_social_api.Infrastructure.Postgres.Repository.{Server}
use be_in_crypto_social_api.Infrastructure.Redis.Client.{Redis}
use be_in_crypto_social_api.Infrastructure.Redis.Laws.{RedisLaws}
use be_in_crypto_social_api.Infrastructure.Redis.Repository.{RedisLikeRepository}
use be_in_crypto_social_api.Infrastructure.Wiring.{World, service}
use be_in_crypto_social_api.Infrastructure.Wiring.Refinement.{wired_backend}

-- the server's keys; `batches_expired` says that an MGET finds no counter
pub record Shelf : Type 0 where
  pub numbers : List (Text × ℕ)
  pub strings : List (Text × Text)
  pub batches_expired : Bool

abbrev number_at : Shelf → Text → Option ℕ
number_at r key = get Text-discrete key r.numbers

abbrev store_number : Text → ℕ → Shelf → Shelf
store_number key n r = record r { numbers = insert Text-discrete key n r.numbers }

abbrev string_at : Shelf → Text → Option Text
string_at r key = get Text-discrete key r.strings

abbrev store_string : Text → Text → Shelf → Shelf
store_string key value r = record r { strings = insert Text-discrete key value r.strings }

abbrev numbers_at : Bool → List Text → Shelf → List (Option ℕ)
numbers_at true keys r = map (λ _. none) keys
numbers_at false keys r = map (number_at r) keys

abbrev store_numbers : List (Text × ℕ × ℕ) → Shelf → Shelf
store_numbers [] r = r
store_numbers ((key, n, ttl) ∷ entries) r = store_numbers entries (store_number key n r)

abbrev set_absent : Option Text → Text → Text → Shelf → Option Text × Shelf
set_absent (some old) key value r = (none, r)
set_absent none key value r = (some (codes "OK"), store_string key value r)

abbrev pub redis : Redis Shelf
redis = record {
  incr_expire =
      λ key n ttl r. let m = or_zero (number_at r key) + n in (ok (m, 1), store_number key m r);
  decr_expire =
      λ key n ttl r. let m = or_zero (number_at r key) - n in (ok (m, 1), store_number key m r);
  set_ex_u64 = λ key n ttl r. (ok tt, store_number key n r);
  get_u64 = λ key r. (ok (number_at r key), r);
  mget_u64 = λ keys r. (ok (numbers_at r.batches_expired keys r), r);
  pipe_set_ex_u64 = λ entries r. (ok tt, store_numbers entries r);
  mget_pair = λ k₁ k₂ r. (ok (string_at r k₁, string_at r k₂), r);
  pipe_set_set_ex = λ k₁ v₁ k₂ v₂ ttl r. (ok tt, store_string k₂ v₂ (store_string k₁ v₁ r));
  set_nx_ex =
      λ key value ttl r. let (a, r') = set_absent (string_at r key) key value r in (ok a, r');
  ping = pure tt;
  publish = λ channel payload. pure tt;
  get_string = λ key r. (ok (string_at r key), r);
  set_ex = λ key value ttl r. (ok tt, store_string key value r);
  get_async_pubsub = pure tt;
  psubscribe = λ pattern. pure [];
  connect = pure tt;
}

pub decremented :
    (key : Text) (n : ℕ) (r : Shelf)
    → number_at r key ≡ some (suc n)
    → let m = or_zero (number_at r key) - 1 in
      (◌≡◌ {A = Result Text (ℕ × ℕ)} (ok (m, 1)) (ok (n, 1)))
      × (number_at (store_number key m r) key ≡ some n)
decremented key n r hit =
    let less : or_zero (number_at r key) - 1 ≡ n = ground (arith, hit) in
    (
      ap (λ (m : ℕ). ok (m, 1)) less,
      get-insert_self Text-discrete key _ r.numbers ∙ ap (λ (m : ℕ). some m) less,
    )

unfoldable pub redis_laws : RedisLaws redis
unfolding Text-discrete
redis_laws = record {
  counter = number_at;
  get_lem = λ key r. refl;
  incr_lem = λ key ttl r room. (refl, get-insert_self Text-discrete key _ r.numbers);
  decr_lem = λ key ttl n r hit. decremented key n r hit;
  set_lem = λ key n ttl r. (refl, get-insert_self Text-discrete key n r.numbers);
}

abbrev pub uuid_text : Uuid → Text
uuid_text u = u ∷ codes "0000000-0000-0000-0000-000000000000"

pub uuid_text_laws : UuidText uuid_text
uuid_text_laws = record { length_lem = λ u. refl; injective = λ u u' h. cc }

abbrev pub server : Server
server = record {
  uuid_generate = λ rows. length rows;
  row_order = λ rows. rows;
  key_order = λ keys. keys;
  group_order = λ groups. groups;
  row_not_found = record { display = codes "no rows"; debug = codes "RowNotFound" };
  negative_limit = record { display = codes "LIMIT"; debug = codes "LIMIT" };
  uuid_text = uuid_text;
}

abbrev pub repository : RedisLikeRepository Shelf
repository = record {
  redis = redis;
  config = record {
    cache_ttl_like_counts_secs = pos 300;
    cache_ttl_content_validation_secs = pos 3600;
  };
  uuid_text = uuid_text;
  items_to_json = λ items. some (codes "[]");
  items_from_json = λ json. some [];
  event_to_json = λ event. ok (codes "{}");
}

-- a validator that accepts every user and content
abbrev pub accepting : ExternalValidator (World Shelf)
accepting = record {
  validate_user = λ token w. (ok token.uuid, w);
  validate_content = λ t i w. (ok i.uuid, w);
  health_check = pure tt;
}

abbrev pub svc : LikeService (World Shelf)
svc = service server repository accepting (λ w. 1000) (λ mutex s. s)

unfoldable pub backend : Backend svc
unfolding wired_backend
backend =
    wired_backend server repository accepting (λ w. 1000) (λ mutex s. s) redis_laws 299 refl
      (λ l. refl) (λ mutex s. refl)

abbrev pub post : ContentType
post = record { as_str = codes "post" }

abbrev pub seven : ContentId
seven = record { uuid = 7 }

abbrev pub alice : UserId
alice = record { uuid = 1 }

abbrev pub bob : UserId
bob = record { uuid = 2 }

abbrev pub like_by : UserId → Like
like_by u = record { id = 0; user_id = u; content_type = post; content_id = seven; created_at = 10 }

-- the service over the given rows and Redis keys
abbrev pub state_of : List Like → Bool → Shelf → State (World Shelf)
state_of rows conn shelf = record {
  world = record {
    pg = record { likes = rows; faults = [] };
    redis = record { conn = conn; server = shelf };
  };
  flight_locks = [];
  next_mutex = 0;
  spawned = [];
}

abbrev pub post_count_key : Text
post_count_key = codes "count:post:" ++ uuid_text 7

abbrev pub empty : Shelf
empty = record { numbers = []; strings = []; batches_expired = true }

abbrev pub counted : ℕ → Shelf
counted n = record empty { numbers = (post_count_key, n) ∷ [] }
