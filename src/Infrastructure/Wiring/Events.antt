-- ===== src/Infrastructure/Wiring/Events.antt =====
-- From the tasks that publish likes, over the pub/sub of Redis and the listener, to a subscriber.
use be_in_crypto_social_api.Prelude.{
  ℕ, ◌≤◌, Text, codes, ◌≡◌, refl, ap, sym, ◌∙◌, List, [], ◌∷◌, ◌++◌, map, length, length-map,
  select, All, Bool-cases, inl, inr, Option, some, true, get, insert, arith,
}
use mathlib.Core.Option.{some-injective}
use mathlib.Core.List.{append-nil, append_assoc}
use be_in_crypto_social_api.Prelude.Exec.{Result, ok}
use be_in_crypto_social_api.Domain.Model.{DateTime, ContentId, ContentType}
use be_in_crypto_social_api.Domain.Ports.{ExternalValidator}
use be_in_crypto_social_api.Domain.Uuids.{UuidText}
use be_in_crypto_social_api.Api.Dto.{SseLikeEvent}
use be_in_crypto_social_api.Application.LikeService.Service.{LikeService, State, Mutex, publish}
use be_in_crypto_social_api.Application.LikeService.Tasks.{run_task, run_tasks}
use be_in_crypto_social_api.Application.Sse.{
  new, Broadcast, SseManager, returned, get_key, subscribe, run_cache_event_listener,
}
use be_in_crypto_social_api.Application.Sse.Listener.{in_stream, rounds_until}
use be_in_crypto_social_api.Application.Sse.Delivery.{
  BroadcastLaws, is_about, events_about, subscribe-Holds, subscriber-receives,
}
use be_in_crypto_social_api.Application.Sse.Alone.{get-only, handle_all-only}
use be_in_crypto_social_api.Infrastructure.Postgres.Repository.{Server}
use be_in_crypto_social_api.Infrastructure.Redis.Client.{Redis}
use be_in_crypto_social_api.Infrastructure.Redis.Keys.{format_channel_key}
use be_in_crypto_social_api.Infrastructure.Redis.Repository.{
  RedisLikeRepository, redis_repository, send_or, publish_like_event,
}
use be_in_crypto_social_api.Infrastructure.Wiring.{World, cache_on, service}

-- What Redis documents of PUBLISH, of a connection that has subscribed to `sse:events:*`: it is
-- sent each payload that is published on a channel of that pattern, in order.
pub record PubSubLaws {R : Type 0} (redis : Redis R) : Type 0 where
  pub heard : R → List Text
  pub publish_lem :
      (rest payload : Text) (r : R)
      → let (x, r') = redis.publish (codes "sse:events" ++ (codes ":" ++ rest)) payload r in
        (x ≡ ok tt) × (heard r' ≡ heard r ++ payload ∷ [])

-- What `serde_json` promises of an event: it is written, and read again as it was.
pub record EventJson (to_json : SseLikeEvent → Result Text Text)
    (from_json : Text → Option SseLikeEvent) : Type 0 where
  pub json : SseLikeEvent → Text
  pub to_lem : (e : SseLikeEvent) → to_json e ≡ ok (json e)
  pub from_lem : (e : SseLikeEvent) → from_json (json e) ≡ some e

-- An event of a content, as those of likes and unlikes are.
abbrev pub IsKeyed : SseLikeEvent → Type 0
IsKeyed e =
    (t : ContentType) × (i : ContentId) × (e.content_type ≡ some t) × (e.content_id ≡ some i)

-- The events about a content.
abbrev pub about : ContentType → ContentId → List SseLikeEvent → List SseLikeEvent
about t i = select (λ e. is_about t i e.content_type e.content_id)

module _ {R : Type 0} (server : Server) (repo : RedisLikeRepository R)
    (laws : PubSubLaws repo.redis) (extern_validator : ExternalValidator (World R))
    (now : World R → DateTime) (until_granted : Mutex → State (World R) → State (World R))
    (from_json : Text → Option SseLikeEvent) (codec : EventJson repo.event_to_json from_json) where
  abbrev svc : LikeService (World R)
  svc = service server repo extern_validator now until_granted

  publish-heard :
      (e : SseLikeEvent) (s : State (World R))
      → s.world.redis.conn ≡ true
      → IsKeyed e
      → let s' = (run_task svc (publish e) s).1 in
        (s'.world.redis.conn ≡ true)
        × (laws.heard s'.world.redis.server ≡ laws.heard s.world.redis.server ++ codec.json e ∷ [])
  unfolding service cache_on redis_repository run_task publish_like_event send_or format_channel_key
  publish-heard e s up (t, i, of_type, of_id) =
      let key = t.as_str ++ (codes ":" ++ repo.uuid_text i.uuid) in
      let sent = laws.publish_lem key (codec.json e) s.world.redis.server in
      ground (arith, up, of_type, of_id, codec.to_lem e, sent)

  heard-run_tasks :
      (events : List SseLikeEvent) (s : State (World R))
      → s.world.redis.conn ≡ true
      → All IsKeyed events
      → laws.heard (run_tasks svc (map publish events) s).world.redis.server
        ≡ laws.heard s.world.redis.server ++ map codec.json events
  unfolding run_tasks
  heard-run_tasks [] s up keyed = sym (append-nil _)
  heard-run_tasks (e ∷ events) s up (k, keyed) =
      let (up', more) = publish-heard e s up k in
      heard-run_tasks events (run_task svc (publish e) s).1 up' keyed
      ∙ ap (λ (h : List Text). h ++ map codec.json events) more
      ∙ append_assoc (laws.heard s.world.redis.server) (codec.json e ∷ []) (map codec.json events)

  module _ {C : Type 0} (broadcast : Broadcast C) (broadcast_laws : BroadcastLaws broadcast)
      (shard : Text → ℕ) (uuids : UuidText repo.uuid_text) (t : ContentType) (i : ContentId) where
    -- the manager over the same JSON and the same text of a UUID
    abbrev manager : SseManager C
    manager = record {
      broadcast = broadcast;
      uuid_text = repo.uuid_text;
      event_from_json = from_json;
      shard = shard;
    }

    events_about-json :
        (events : List SseLikeEvent)
        → events_about manager t i (map codec.json events) ≡ about t i events
    unfolding events_about
    events_about-json [] = refl
    events_about-json (e ∷ events) = elim (Bool-cases (is_about t i e.content_type e.content_id)) [
      | inl yes_about ↦ rw (codec.from_lem e, yes_about) (ap (◌∷◌ e) (events_about-json events))
      | inr not_about ↦ rw (codec.from_lem e, not_about) (events_about-json events)
    ]

    -- Once the tasks of at most 100 events have run, while Redis is up, a connection to its pub/sub
    -- has been sent one more payload for each; the listener that reads these handles them all, and
    -- then the one client that has subscribed to a content before finds in its buffer exactly the
    -- events about that content, in the order in which they were published.
    pub published-received :
        (events : List SseLikeEvent) (s : State (World R))
        → s.world.redis.conn ≡ true
        → All IsKeyed events
        → length events ≤ 100
        → let s' = run_tasks svc (map publish events) s in
          let (rx, subscribed) = subscribe manager t i new in
          (payloads : List Text) × (tx : C) × (laws.heard s'.world.redis.server
            ≡ laws.heard s.world.redis.server ++ payloads)
          × (run_cache_event_listener manager
                (rounds_until manager [] (in_stream payloads) [] [])
                subscribed
              ≡ returned ((get_key manager t i, tx) ∷ []))
          × (broadcast_laws.buffered tx rx ≡ some (about t i events))
    unfolding new subscribe get insert
    published-received events s up keyed few =
        let payloads = map codec.json events in
        let (rx, subscribed) = subscribe manager t i [] in
        let fits : length payloads ≤ 100 = omega (arith, length-map codec.json events, few) in
        let start = subscribe-Holds manager t i broadcast_laws uuids [] refl in
        let (tx, run) =
          handle_all-only manager t i broadcast_laws uuids rx 100 payloads _ []
            (omega (arith, fits)) start in
        let (returns, tx', found, buffer) =
          subscriber-receives manager t i broadcast_laws uuids [] _ [] (in_stream payloads) [] []
            refl fits run in
        let same : tx' ≡ tx = sym (
          some-injective tx tx'
            (sym (get-only manager t i broadcast_laws uuids rx 100 tx) ∙ found)) in
        (
          payloads,
          tx,
          heard-run_tasks events s up keyed,
          returns,
          rw (← same)
              (buffer ∙ ap (λ (es : List SseLikeEvent). some es) (events_about-json events)),
        )
