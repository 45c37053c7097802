-- ===== src/Application/Sse.antt =====
-- social_api/src/application/sse.rs, and `sse_stream` of social_api/src/api/handlers.rs.
pub mod Routing
pub mod Listener
pub mod Delivery
pub mod Alone
pub mod Clients
use be_in_crypto_social_api.Prelude.{
  ℕ, Text, Text-discrete, codes, List, [], ◌∷◌, ◌++◌, Option, none, some, Bool, true, false, ◌&&◌,
  not, ◌==◌, if◌then◌else◌, get, insert, remove,
}
use be_in_crypto_social_api.Prelude.Exec.{Result, ok, err}
use be_in_crypto_social_api.Domain.Model.{Uuid, DateTime, ContentId, ContentType}
use be_in_crypto_social_api.Api.Dto.{SseEventType, heartbeat, shutdown, SseLikeEvent}

-- The channels of `tokio::sync::broadcast`: a channel with its receivers, of type `C`.
pub record Broadcast (C : Type 0) : Type 0 where
  pub channel : (capacity : ℕ) → C
  pub subscribe : C → ℕ × C
  pub send : SseLikeEvent → C → Bool × C
  pub receiver_count : C → ℕ

-- The struct `SseManager` less its channels, with the codec, the `Display` of a UUID, and the hash by
-- which the `DashMap` of the channels chooses the shard of a key.
pub record SseManager (C : Type 0) : Type 0 where
  pub broadcast : Broadcast C
  pub uuid_text : Uuid → Text
  pub event_from_json : Text → Option SseLikeEvent
  pub shard : Text → ℕ

abbrev pub Channels : Type 0 → Type 0
Channels C = List (Text × C)

-- What `process_stream` is woken by: a message, the end of the stream, or the cancellation.
pub data Wake : Type 0 where
  message : Text → Wake
  ended cancelled : Wake

pub data Flow : Type 0 where
  break_ continue_ : Flow

-- the channels of a manager that `SseManager::new` has made
unfoldable pub new : {C : Type 0} → Channels C
new = []

module _ {C : Type 0} (m : SseManager C) where
  unfoldable pub get_key : ContentType → ContentId → Text
  get_key c_type c_id = c_type.as_str ++ (codes ":" ++ m.uuid_text c_id.uuid)

  abbrev channel_of : Option C → C
  channel_of none = m.broadcast.channel 100
  channel_of (some tx) = tx

  -- the receiver, and the channels with the sender's entry
  unfoldable pub subscribe : ContentType → ContentId → Channels C → ℕ × Channels C
  subscribe c_type c_id channels =
      let key = get_key c_type c_id in
      let (rx, tx) = m.broadcast.subscribe (channel_of (get Text-discrete key channels)) in
      (rx, insert Text-discrete key tx channels)

  -- `DashMap::remove` takes the lock of the key's shard. A task that itself holds a reference into
  -- that shard, as `get` has returned it, waits for itself: `none`. The references that are alive are
  -- given by their keys, and the shard of a key is the hash of it.
  unfoldable pub remove_locked : List Text → Text → Channels C → Option (Channels C)
  remove_locked [] key channels = some (remove Text-discrete key channels)
  remove_locked (alive ∷ references) key channels =
      if m.shard alive == m.shard key then none else remove_locked references key channels

  -- the `if` after `send`; the reference `tx`, of the same key, is alive until the function ends
  abbrev after_send : Bool × C → Text → Channels C → Option (Channels C)
  after_send (sent, tx) key channels =
      if not sent && (m.broadcast.receiver_count tx == 0)
      then remove_locked (key ∷ []) key (insert Text-discrete key tx channels)
      else some (insert Text-discrete key tx channels)

  abbrev pub send_to : SseLikeEvent → Text → Option C → Channels C → Option (Channels C)
  send_to event key none channels = some channels
  send_to event key (some tx) channels = after_send (m.broadcast.send event tx) key channels

  abbrev pub route :
      SseLikeEvent → Option ContentType → Option ContentId → Channels C → Option (Channels C)
  route event (some c_type) (some c_id) channels =
      let key = get_key c_type c_id in send_to event key (get Text-discrete key channels) channels
  route event _ _ channels = some channels

  abbrev pub handle_event : Option SseLikeEvent → Channels C → Option (Channels C)
  handle_event none channels = some channels
  handle_event (some event) channels = route event event.content_type event.content_id channels

  unfoldable pub handle_incoming_payload : Text → Channels C → Option (Channels C)
  handle_incoming_payload payload channels = handle_event (m.event_from_json payload) channels

  -- `process_stream`; at the end of the list it still waits, which ends in no flow
  unfoldable pub process_stream : List Wake → Channels C → Option (Option Flow × Channels C)
  process_stream [] channels = some (none, channels)
  process_stream (cancelled ∷ wakes) channels = some (some break_, channels)
  process_stream (ended ∷ wakes) channels = some (some continue_, channels)
  process_stream (message payload ∷ wakes) channels =
      elim (handle_incoming_payload payload channels) [
        | none ↦ none
        | some channels' ↦ process_stream wakes channels'
      ]

-- A round of the loop of `run_cache_event_listener`: whether the token is cancelled at its head, the
-- stream that `get_async_pubsub_stream` connects, with what wakes its reader, or none if it fails,
-- and whether the cancellation ends the sleep of two seconds.
pub record Round : Type 0 where
  pub is_cancelled : Bool
  pub stream : Option (List Wake)
  pub cancelled_asleep : Bool

-- The task has returned, waits for itself, or has not ended within the rounds.
pub data Outcome (C : Type 0) : Type 0 where
  returned : Channels C → Outcome C
  blocked : Outcome C
  running : Channels C → Outcome C

module _ {C : Type 0} (m : SseManager C) where
  -- the `select!` at the end of the loop's body
  abbrev sleep : Bool → Channels C → (Channels C → Outcome C) → Outcome C
  sleep true channels next = returned channels
  sleep false channels next = next channels

  -- the `if` on what `process_stream` returns
  abbrev after_stream :
      Bool → Option (Option Flow × Channels C) → (Channels C → Outcome C) → Outcome C
  after_stream cancelled_asleep none next = blocked
  after_stream cancelled_asleep (some (none, channels)) next = running channels
  after_stream cancelled_asleep (some (some break_, channels)) next = returned channels
  after_stream cancelled_asleep (some (some continue_, channels)) next =
      sleep cancelled_asleep channels next

  -- the `match` on the connection
  abbrev listen : Round → Channels C → (Channels C → Outcome C) → Outcome C
  listen round channels next = elim round.stream [
    | none ↦ sleep round.cancelled_asleep channels next
    | some wakes ↦ after_stream round.cancelled_asleep (process_stream m wakes channels) next
  ]

  unfoldable pub run_cache_event_listener : List Round → Channels C → Outcome C
  unfolding process_stream
  run_cache_event_listener [] channels = running channels
  run_cache_event_listener (round ∷ rounds) channels = elim round.is_cancelled [
    | true ↦ returned channels
    | false ↦ listen round channels (run_cache_event_listener rounds)
  ]

-- What a client's stream is woken by: the heartbeat, the shutdown, a received event, a lag with
-- the events that are still in the buffer, or a closed channel.
pub data Signal : Type 0 where
  tick cancel closed : Signal
  received : SseLikeEvent → Signal
  lagged : List SseLikeEvent → Signal

-- What is sent to the client: JSON of an event, of the latest event if any, or the named event.
pub data Frame : Type 0 where
  event_frame shutdown_frame : SseLikeEvent → Frame
  latest_frame : Option SseLikeEvent → Frame

abbrev pub bare : SseEventType → DateTime → SseLikeEvent
bare kind now = record {
  event = kind;
  content_type = none;
  content_id = none;
  user_id = none;
  count = none;
  timestamp = now;
}

-- the loop over `try_recv`
unfoldable pub drain : Option SseLikeEvent → List SseLikeEvent → Option SseLikeEvent
drain latest [] = latest
drain latest (ev ∷ evs) = drain (some ev) evs

-- the body of the stream of `sse_stream`, over the signals with their times
unfoldable pub sse_stream : List (DateTime × Signal) → List Frame
unfolding drain
sse_stream [] = []
sse_stream ((now, tick) ∷ signals) = event_frame (bare heartbeat now) ∷ sse_stream signals
sse_stream ((now, cancel) ∷ signals) = shutdown_frame (bare shutdown now) ∷ []
sse_stream ((now, closed) ∷ signals) = []
sse_stream ((now, received event) ∷ signals) = event_frame event ∷ sse_stream signals
sse_stream ((now, lagged backlog) ∷ signals) =
    latest_frame (drain none backlog) ∷ sse_stream signals
