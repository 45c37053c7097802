-- ===== src/Tests/Streams.antt =====
-- The listener and its subscribers over channels of tokio's kind, where each receiver has a buffer
-- of the channel's capacity and loses its oldest event when that is full.
use be_in_crypto_social_api.Prelude.{
  All, ℕ, ℕ_discrete, zero, suc, ◌-◌, ◌<◌, Text, Text-discrete, codes, ◌≡◌, refl, ap, List, [], ◌∷◌,
  ◌++◌, map, Option, none, some, true, not, length, is_empty, drop, get_elem?, get_elem?-map,
  get_elem?-length, get, insert, arith,
}
use be_in_crypto_social_api.Domain.Model.{DateTime, ContentId, ContentKey-discrete}
use be_in_crypto_social_api.Api.Dto.{SseEventType, like, unlike, SseLikeEvent}
use be_in_crypto_social_api.Application.Sse.{
  Broadcast, SseManager, Channels, returned, get_key, subscribe, handle_incoming_payload,
  run_cache_event_listener,
}
use be_in_crypto_social_api.Application.Sse.{
  Signal, tick, received, lagged, cancel, shutdown_frame, bare, sse_stream,
}
use be_in_crypto_social_api.Application.Sse.Clients.{IsOpen, frame_of, sse_stream-shutdown}
use be_in_crypto_social_api.Api.Dto
use be_in_crypto_social_api.Application.Sse.Listener.{
  Session, unreachable, broken, Shutdown, in_stream, rounds_until, handle_all,
  run_cache_event_listener-returns,
}
use be_in_crypto_social_api.Application.Sse.Delivery.{
  BroadcastLaws, events_about, subscriber-receives,
}
use be_in_crypto_social_api.Tests.Fixtures.{uuid_text, uuid_text_laws, post, seven}

pub record Channel : Type 0 where
  pub capacity : ℕ
  pub buffers : List (List SseLikeEvent)

abbrev pub push : ℕ → SseLikeEvent → List SseLikeEvent → List SseLikeEvent
push capacity event q = drop (suc (length q) - capacity) (q ++ event ∷ [])

abbrev pub broadcast : Broadcast Channel
broadcast = record {
  channel = λ capacity. record { capacity = capacity; buffers = [] };
  subscribe = λ c. (length c.buffers, record c { buffers = c.buffers ++ [] ∷ [] });
  send = λ event c.
      (not (is_empty c.buffers), record c { buffers = map (push c.capacity event) c.buffers });
  receiver_count = λ c. length c.buffers;
}

pub nonempty :
    {A : Type 0} (xs : List A) (n : ℕ) (x : A) → get_elem? xs n ≡ some x → not (is_empty xs) ≡ true
nonempty [] n x h = absurd (ground (arith, h))
nonempty (y ∷ ys) n x h = refl

push-room :
    (capacity : ℕ) (event : SseLikeEvent) (q : List SseLikeEvent)
    → length q < capacity
    → push capacity event q ≡ q ++ event ∷ []
push-room capacity event q free =
    let none_lost : suc (length q) - capacity ≡ 0 = omega arith in
    ap (λ n. drop n (q ++ event ∷ [])) none_lost

pub pushed :
    (event : SseLikeEvent) (c : Channel) (rx : ℕ) (q : List SseLikeEvent)
    → get_elem? c.buffers rx ≡ some q
    → length q < c.capacity
    → get_elem? (map (push c.capacity event) c.buffers) rx ≡ some (q ++ event ∷ [])
pushed event c rx q h free =
    rw (get_elem?-map (push c.capacity event) c.buffers rx q h, push-room c.capacity event q free)
      refl

unfoldable pub broadcast_laws : BroadcastLaws broadcast
broadcast_laws = record {
  buffered = λ c rx. get_elem? c.buffers rx;
  capacity_of = λ c. c.capacity;
  channel_lem = λ n. refl;
  subscribe_lem = λ c. (get_elem?-length c.buffers [], refl);
  send_lem = λ event c rx q h free. (nonempty c.buffers rx q h, pushed event c rx q h free, refl);
}

abbrev pub event_on : ContentId → SseEventType → SseLikeEvent
event_on i kind = record {
  event = kind;
  content_type = some post;
  content_id = some i;
  user_id = none;
  count = some 1;
  timestamp = 10;
}

abbrev pub eight : ContentId
eight = record { uuid = 8 }

-- a payload is a number: a like or an unlike of post seven, a like of post eight, or no event
abbrev event_from_json : Text → Option SseLikeEvent
event_from_json (zero ∷ []) = some (event_on seven like)
event_from_json (suc zero ∷ []) = some (event_on seven unlike)
event_from_json (suc (suc zero) ∷ []) = some (event_on eight like)
event_from_json _ = none

abbrev manager : SseManager Channel
manager = record {
  broadcast = broadcast;
  uuid_text = uuid_text;
  event_from_json = event_from_json;
  shard = λ key. 0;
}

-- no connection; one that brings a like, noise and the like of another post; then an unlike
abbrev sessions : List Session
sessions = unreachable ∷ broken ((0 ∷ []) ∷ [] ∷ (2 ∷ []) ∷ []) ∷ []

abbrev shutdown : Shutdown
shutdown = in_stream ((1 ∷ []) ∷ [])

abbrev channels_with : List SseLikeEvent → Channels Channel
channels_with events =
    (codes "post:" ++ uuid_text 7, record { capacity = 100; buffers = events ∷ [] }) ∷ []

run_cache_event_listener-returns_example :
    run_cache_event_listener manager
      (rounds_until manager sessions shutdown [] [])
      (channels_with [])
    ≡ returned (channels_with (event_on seven like ∷ event_on seven unlike ∷ []))
unfolding handle_all handle_incoming_payload get_key get insert Text-discrete ℕ_discrete
run_cache_event_listener-returns_example =
    run_cache_event_listener-returns manager sessions shutdown [] [] (channels_with [])

subscriber-receives_example :
    let (rx, subscribed) = subscribe manager post seven [] in
    let channels' = channels_with (event_on seven like ∷ event_on seven unlike ∷ []) in
    (run_cache_event_listener manager (rounds_until manager sessions shutdown [] []) subscribed
      ≡ returned channels')
    × (tx : Channel) × (get Text-discrete (get_key manager post seven) channels' ≡ some tx)
    × (get_elem? tx.buffers rx ≡ some (event_on seven like ∷ event_on seven unlike ∷ []))
unfolding broadcast_laws subscribe handle_all handle_incoming_payload events_about get_key get
    insert Text-discrete ContentKey-discrete ℕ_discrete
subscriber-receives_example =
    subscriber-receives manager post seven broadcast_laws uuid_text_laws []
      (channels_with (event_on seven like ∷ event_on seven unlike ∷ [])) sessions shutdown [] []
      refl (omega arith) refl

-- a heartbeat, an event, and two events that came too fast; and one after the shutdown
abbrev signals : List (DateTime × Signal)
signals =
    (15, tick)
    ∷ (16, received (event_on seven like))
    ∷ (17, lagged (event_on seven like ∷ event_on seven unlike ∷ []))
    ∷ []

signals-IsOpen : All IsOpen signals
signals-IsOpen = (((λ e. cc), (λ e. cc)), (((λ e. cc), (λ e. cc)), (((λ e. cc), (λ e. cc)), tt)))

sse_stream-shutdown_example :
    sse_stream (signals ++ (18, cancel) ∷ (19, received (event_on seven like)) ∷ [])
    ≡ map frame_of signals ++ shutdown_frame (bare Dto.shutdown 18) ∷ []
sse_stream-shutdown_example =
    sse_stream-shutdown signals ((19, received (event_on seven like)) ∷ []) 18 signals-IsOpen
