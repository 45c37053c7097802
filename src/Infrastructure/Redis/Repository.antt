-- ===== src/Infrastructure/Redis/Repository.antt =====
-- The methods of `RedisLikeRepository`.
use be_in_crypto_social_api.Prelude.{
  ℕ, as_u64, Text, codes, List, [], ◌∷◌, ◌++◌, map, is_empty, Option, none, some, Bool, true, false,
  not, insert, if◌then◌else◌,
}
use be_in_crypto_social_api.Prelude.Exec.{
  Result, ok, err, Exec, to_option, pure, gets, lift, ◌>>=◌, ◌>>◌,
}
use be_in_crypto_social_api.Domain.Errors.{
  DomainError, cache_error, cache_health_error, cache_offline, sse_key_error,
}
use be_in_crypto_social_api.Domain.Model.{Uuid, ContentId, ContentType, ContentId-discrete}
use be_in_crypto_social_api.Domain.Ports.{LikeCacheRepository, Call}
use be_in_crypto_social_api.Api.Dto.{ContentCount, ContentItem, SseLikeEvent, TopLikeItem}
use be_in_crypto_social_api.Infrastructure.Redis.Client.{Redis}
use be_in_crypto_social_api.Infrastructure.Redis.Keys.{
  Config, data_, canary, lock, get_ttl_for_key, format_all_channels_key, format_lead_key,
  format_count_key, format_channel_key,
}

-- The shared connection (`conn`), and the server behind it.
pub record RedisWorld (R : Type 0) : Type 0 where
  pub conn : Bool
  pub server : R

-- The struct, with the JSON codecs of `serde_json`, of which writing may fail.
pub record RedisLikeRepository (R : Type 0) : Type 0 where
  pub redis : Redis R
  pub config : Config
  pub uuid_text : Uuid → Text
  pub items_to_json : List TopLikeItem → Option Text
  pub items_from_json : Text → Option (List TopLikeItem)
  pub event_to_json : SseLikeEvent → Result Text Text

-- `.map_err(|e| f(e.to_string()))`
abbrev pub map_text : {A : Type 0} → (Text → DomainError) → Result Text A → Result DomainError A
map_text f (ok a) = ok a
map_text f (err e) = err (f e)

abbrev pub or_empty : Option Text → Text
or_empty none = []
or_empty (some t) = t

abbrev pub present : {A : Type 0} → Option A → Bool
present none = false
present (some a) = true

abbrev pub and_then : {A B : Type 0} → (A → Option B) → Option A → Option B
and_then f none = none
and_then f (some a) = f a

-- the loop over `items.iter().zip(values)`: a later item of one content id replaces an earlier one
unfoldable pub collect_counts :
    List ContentItem → List (Option ℕ) → List (ContentId × ℕ) → List (ContentId × ℕ)
collect_counts (item ∷ items) (some count ∷ values) result =
    collect_counts items values (insert ContentId-discrete item.content_id count result)
collect_counts (item ∷ items) (none ∷ values) result = collect_counts items values result
collect_counts _ _ result = result

abbrev or_key_error : {A : Type 0} → Option A → Result DomainError A
or_key_error none = err sse_key_error
or_key_error (some a) = ok a

-- the connection is looked up first, so an event without a key is `CacheOffline` when offline
abbrev online : Bool → Result DomainError (Unit {0})
online false = err cache_offline
online true = ok tt

module _ {R : Type 0} where
  abbrev send_if :
      {A : Type 0}
      → (Text → DomainError)
      → Exec Text R A
      → Bool
      → R
      → Result DomainError A × RedisWorld R
  send_if f command false server = (err cache_offline, record { conn = false; server = server })
  send_if f command true server =
      let (r, server') = command server in (map_text f r, record { conn = true; server = server' })

  -- `let Some(conn) = … else { return Err(CacheOffline) }`, and one command over it
  unfoldable pub send_or :
      {A : Type 0} → (Text → DomainError) → Exec Text R A → Call (RedisWorld R) A
  send_or f command w = send_if f command w.conn w.server

  abbrev pub send : {A : Type 0} → Exec Text R A → Call (RedisWorld R) A
  send command = send_or cache_error command

  module _ (repo : RedisLikeRepository R) where
    abbrev count_key : ContentType → ContentId → Text
    count_key t i = format_count_key repo.uuid_text t i

    unfoldable pub increment : ContentType → ContentId → Call (RedisWorld R) ℕ
    increment t i = do
      let key = count_key t i
      (count, _) ← send (repo.redis.incr_expire key 1 (get_ttl_for_key repo.config key))
      pure count

    unfoldable pub decrement : ContentType → ContentId → Call (RedisWorld R) ℕ
    decrement t i = do
      let key = count_key t i
      (count, _) ← send (repo.redis.decr_expire key 1 (get_ttl_for_key repo.config key))
      pure count

    unfoldable pub set_value : ContentType → ContentId → ℕ → Call (RedisWorld R) (Unit {0})
    set_value t i value =
        let key = count_key t i in
        send (repo.redis.set_ex_u64 key value (as_u64 (get_ttl_for_key repo.config key)))

    unfoldable pub get_count : ContentType → ContentId → Call (RedisWorld R) (Option ℕ)
    get_count t i = send (repo.redis.get_u64 (count_key t i))

    unfoldable pub get_counts_batch : List ContentItem → Call (RedisWorld R) (List (ContentId × ℕ))
    unfolding collect_counts
    get_counts_batch items = if is_empty items then pure [] else (do
      values ← send (repo.redis.mget_u64 (map (λ i. count_key i.content_type i.content_id) items))
      pure (collect_counts items values []))

    unfoldable pub set_counts_batch : List ContentCount → Call (RedisWorld R) (Unit {0})
    set_counts_batch counts =
        if is_empty counts
        then pure tt
        else send (
            repo.redis.pipe_set_ex_u64
              (map (λ i. (count_key i.content_type i.content_id, i.count, 3600)) counts))

    unfoldable pub get_leaderboard_with_canary :
        Text → ContentType → Call (RedisWorld R) (Option (List TopLikeItem) × Bool)
    get_leaderboard_with_canary window t = do
      (data_json, canary_exists) ←
          send (
            repo.redis.mget_pair (format_lead_key data_ window t) (format_lead_key canary window t))
      pure (and_then repo.items_from_json data_json, present canary_exists)

    unfoldable pub set_leaderboard_with_canary :
        Text → ContentType → List TopLikeItem → ℕ → Call (RedisWorld R) (Unit {0})
    set_leaderboard_with_canary window t items canary_ttl = send (
        repo.redis.pipe_set_set_ex (format_lead_key data_ window t)
          (or_empty (repo.items_to_json items)) (format_lead_key canary window t) (codes "alive")
          canary_ttl)

    unfoldable pub acquire_refresh_lock : Text → ContentType → Call (RedisWorld R) Bool
    acquire_refresh_lock window t = do
      acquired ← send (repo.redis.set_nx_ex (format_lead_key lock window t) (codes "locked") 10)
      pure (present acquired)

    unfoldable pub health_check : Call (RedisWorld R) (Unit {0})
    health_check = send_or cache_health_error repo.redis.ping

    unfoldable pub publish_like_event : SseLikeEvent → Call (RedisWorld R) (Unit {0})
    publish_like_event event = do
      conn ← gets (λ w. w.conn)
      _ ← lift (online conn)
      c_type ← lift (or_key_error event.content_type)
      c_id ← lift (or_key_error event.content_id)
      payload ←
          lift (map_text (λ e. cache_error (codes "JSON error: " ++ e)) (repo.event_to_json event))
      send (repo.redis.publish (format_channel_key repo.uuid_text c_type c_id) payload)

    -- over a connection of its own
    unfoldable pub get_async_pubsub_stream : Call (RedisWorld R) (List Text)
    get_async_pubsub_stream w =
        let (r, server) =
          (do repo.redis.get_async_pubsub; repo.redis.psubscribe format_all_channels_key)
            w.server in
        (map_text cache_error r, record w { server = server })

    unfoldable pub get_string : Text → Call (RedisWorld R) (Option Text)
    get_string key = send (repo.redis.get_string key)

    unfoldable pub set_string : Text → Text → ℕ → Call (RedisWorld R) (Unit {0})
    set_string key value ttl = send (repo.redis.set_ex key value ttl)

    abbrev needs_reconnect : Bool → R → Bool × R
    needs_reconnect true server =
        let (r, server') = repo.redis.ping server in (not (present (to_option r)), server')
    needs_reconnect false server = (true, server)

    abbrev reconnect : Bool → Bool → R → RedisWorld R
    reconnect conn false server = record { conn = conn; server = server }
    reconnect conn true server =
        let (r, server') = repo.redis.connect server in
        elim r [
          | ok _ ↦ record { conn = true; server = server' }
          | err _ ↦ record { conn = conn; server = server' }
        ]

    -- one round of the loop of `monitor_connection`
    unfoldable pub monitor_tick : RedisWorld R → RedisWorld R
    monitor_tick w =
        let (lost, server) = needs_reconnect w.conn w.server in reconnect w.conn lost server

    -- `impl LikeCacheRepository for RedisLikeRepository`
    unfoldable pub redis_repository : LikeCacheRepository (RedisWorld R)
    redis_repository = record {
      increment = increment;
      decrement = decrement;
      set_value = set_value;
      get_count = get_count;
      get_counts_batch = get_counts_batch;
      set_counts_batch = set_counts_batch;
      get_leaderboard_with_canary = get_leaderboard_with_canary;
      set_leaderboard_with_canary = set_leaderboard_with_canary;
      acquire_refresh_lock = acquire_refresh_lock;
      get_async_pubsub_stream = get_async_pubsub_stream;
      publish_like_event = publish_like_event;
      get_string = get_string;
      set_string = set_string;
      health_check = health_check;
    }
