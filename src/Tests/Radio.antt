-- ===== src/Tests/Radio.antt =====
-- A Redis server that only broadcasts what is published, and three events on it.
use be_in_crypto_social_api.Prelude.{
  ℕ, ℕ_discrete, zero, suc, Text, ◌≡◌, refl, List, [], ◌∷◌, ◌++◌, Option, none, some, true, map,
  get_elem?, arith,
}
use be_in_crypto_social_api.Prelude.Exec.{ok, pure}
use be_in_crypto_social_api.Domain.Model.{ContentId, ContentType, UserId, ContentKey-discrete}
use be_in_crypto_social_api.Domain.Ports.{ExternalValidator}
use be_in_crypto_social_api.Api.Dto.{SseEventType, like, unlike, heartbeat, shutdown, SseLikeEvent}
use be_in_crypto_social_api.Application.LikeService.Service.{LikeService, State, publish}
use be_in_crypto_social_api.Application.LikeService.Tasks.{run_tasks}
use be_in_crypto_social_api.Application.Sse.{
  new, SseManager, returned, get_key, subscribe, run_cache_event_listener,
}
use be_in_crypto_social_api.Application.Sse.Listener.{in_stream, rounds_until}
use be_in_crypto_social_api.Infrastructure.Redis.Client.{Redis}
use be_in_crypto_social_api.Infrastructure.Redis.Repository.{RedisLikeRepository}
use be_in_crypto_social_api.Infrastructure.Wiring.{World, service}
use be_in_crypto_social_api.Infrastructure.Wiring.Events.{PubSubLaws, EventJson, published-received}
use be_in_crypto_social_api.Tests.Fixtures.{
  server, repository, uuid_text, uuid_text_laws, post, seven,
}
use be_in_crypto_social_api.Tests.Streams.{Channel, broadcast, broadcast_laws, event_on, eight}

-- the server is what has been heard
abbrev radio : Redis (List Text)
radio = record {
  incr_expire = λ key n ttl. pure (n, 1);
  decr_expire = λ key n ttl. pure (0, 1);
  set_ex_u64 = λ key n ttl. pure tt;
  get_u64 = λ key. pure none;
  mget_u64 = λ keys. pure [];
  pipe_set_ex_u64 = λ entries. pure tt;
  mget_pair = λ k₁ k₂. pure (none, none);
  pipe_set_set_ex = λ k₁ v₁ k₂ v₂ ttl. pure tt;
  set_nx_ex = λ key value ttl. pure none;
  ping = pure tt;
  publish = λ channel payload heard. (ok tt, heard ++ payload ∷ []);
  get_string = λ key. pure none;
  set_ex = λ key value ttl. pure tt;
  get_async_pubsub = pure tt;
  psubscribe = λ pattern heard. (ok heard, heard);
  connect = pure tt;
}

radio_laws : PubSubLaws radio
radio_laws = record { heard = λ r. r; publish_lem = λ rest payload r. (refl, refl) }

-- An event is written as its fields in order, an option as a tag and a value, the type at the end.
abbrev kind_number : SseEventType → ℕ
kind_number like = 0
kind_number unlike = 1
kind_number heartbeat = 2
kind_number shutdown = 3

abbrev kind_of : ℕ → SseEventType
kind_of zero = like
kind_of (suc zero) = unlike
kind_of (suc (suc zero)) = heartbeat
kind_of (suc (suc (suc n))) = shutdown

kind_of-kind_number : (k : SseEventType) → kind_of (kind_number k) ≡ k
kind_of-kind_number like = refl
kind_of-kind_number unlike = refl
kind_of-kind_number heartbeat = refl
kind_of-kind_number shutdown = refl

abbrev tag : {A : Type 0} → Option A → ℕ
tag none = 0
tag (some a) = 1

abbrev tagged : {A : Type 0} → ℕ → A → Option A
tagged zero a = none
tagged (suc n) a = some a

abbrev or_else : {A : Type 0} → A → Option A → A
or_else d none = d
or_else d (some a) = a

tagged-tag : {A : Type 0} (d : A) (o : Option A) → tagged (tag o) (or_else d o) ≡ o
tagged-tag d none = refl
tagged-tag d (some a) = refl

abbrev nobody : UserId
nobody = record { uuid = 0 }

abbrev nothing : ContentId
nothing = record { uuid = 0 }

abbrev untyped : ContentType
untyped = record { as_str = [] }

abbrev json : SseLikeEvent → Text
json e =
    kind_number e.event
    ∷ tag e.content_id
    ∷ (or_else nothing e.content_id).uuid
    ∷ tag e.user_id
    ∷ (or_else nobody e.user_id).uuid
    ∷ tag e.count
    ∷ or_else 0 e.count
    ∷ e.timestamp
    ∷ tag e.content_type
    ∷ (or_else untyped e.content_type).as_str

abbrev from_json : Text → Option SseLikeEvent
from_json (k ∷ a ∷ i ∷ b ∷ u ∷ c ∷ n ∷ time ∷ d ∷ text) = some (record {
  event = kind_of k;
  content_type = tagged d (record { as_str = text });
  content_id = tagged a (record { uuid = i });
  user_id = tagged b (record { uuid = u });
  count = tagged c n;
  timestamp = time;
})
from_json _ = none

abbrev on_air : RedisLikeRepository (List Text)
on_air = record {
  redis = radio;
  config = repository.config;
  uuid_text = uuid_text;
  items_to_json = repository.items_to_json;
  items_from_json = repository.items_from_json;
  event_to_json = λ e. ok (json e);
}

codec : EventJson on_air.event_to_json from_json
codec = record {
  json = json;
  to_lem = λ e. refl;
  from_lem = λ e k. some (record {
    event = kind_of-kind_number e.event k;
    content_type = tagged-tag untyped e.content_type k;
    content_id = tagged-tag nothing e.content_id k;
    user_id = tagged-tag nobody e.user_id k;
    count = tagged-tag 0 e.count k;
    timestamp = e.timestamp;
  });
}

abbrev silent : State (World (List Text))
silent = record {
  world = record {
    pg = record { likes = []; faults = [] };
    redis = record { conn = true; server = [] };
  };
  flight_locks = [];
  next_mutex = 0;
  spawned = [];
}

abbrev events : List SseLikeEvent
events = event_on seven like ∷ event_on eight like ∷ event_on seven unlike ∷ []

abbrev any : ExternalValidator (World (List Text))
any = record {
  validate_user = λ token w. (ok token.uuid, w);
  validate_content = λ t i w. (ok i.uuid, w);
  health_check = pure tt;
}

abbrev svc : LikeService (World (List Text))
svc = service server on_air any (λ w. 1000) (λ mutex s. s)

abbrev manager : SseManager Channel
manager = record {
  broadcast = broadcast;
  uuid_text = uuid_text;
  event_from_json = from_json;
  shard = λ key. 0;
}

published-received_example :
    let s' = run_tasks svc (map publish events) silent in
    let (rx, subscribed) = subscribe manager post seven new in
    (payloads : List Text) × (tx : Channel) × (s'.world.redis.server ≡ [] ++ payloads)
    × (run_cache_event_listener manager
          (rounds_until manager [] (in_stream payloads) [] [])
          subscribed
        ≡ returned ((get_key manager post seven, tx) ∷ []))
    × (get_elem? tx.buffers rx ≡ some (event_on seven like ∷ event_on seven unlike ∷ []))
unfolding radio_laws broadcast_laws ContentKey-discrete ℕ_discrete
published-received_example =
    published-received server on_air radio_laws any (λ w. 1000) (λ mutex s. s) from_json codec
      broadcast broadcast_laws (λ key. 0) uuid_text_laws post seven events silent refl
      ((post, seven, refl, refl), ((post, eight, refl, refl), ((post, seven, refl, refl), tt)))
      (omega arith)
