-- ===== src/Application/Sse/Delivery.antt =====
-- What a subscriber of a content finds in its channel of social_api/src/application/sse.rs.
use be_in_crypto_social_api.Prelude.{
  ℕ, ◌+◌, ◌≤◌, ◌<◌, Text, Text-discrete, ◌≡◌, ◌≢◌, ap, sym, subst, ◌∙◌, List, [], ◌∷◌, ◌++◌, length,
  length-append, Option, none, some, Bool, true, false, inl, inr, Option-cases, holds,
  if◌then◌else◌, get, insert, get-insert_self, get-insert_ne, arith,
}
use mathlib.Core.Option.{some-injective}
use mathlib.Core.List.{append-nil, append_assoc}
use be_in_crypto_social_api.Domain.Model.{ContentId, ContentType, ContentKey, ContentKey-discrete}
use be_in_crypto_social_api.Domain.Uuids.{UuidText}
use be_in_crypto_social_api.Api.Dto.{SseLikeEvent}
use be_in_crypto_social_api.Application.Sse.Routing.{get_key-injective, remove_locked-own}
use be_in_crypto_social_api.Application.Sse.Listener.{
  handle_all, Session, Shutdown, all_heard, last_heard, rounds_until, finished,
  run_cache_event_listener-returns,
}
use be_in_crypto_social_api.Application.Sse.{
  Broadcast, SseManager, Channels, get_key, subscribe, send_to, route, handle_event,
  handle_incoming_payload, Wake, Round, returned, run_cache_event_listener,
}

-- What tokio documents of a broadcast channel: a new receiver has nothing in its buffer; `send`
-- succeeds while there is a receiver, and appends to the buffer of each receiver that is not behind
-- by the channel's capacity.
pub record BroadcastLaws {C : Type 0} (b : Broadcast C) : Type 0 where
  pub buffered : C → ℕ → Option (List SseLikeEvent)  -- none for a receiver that was dropped
  pub capacity_of : C → ℕ
  pub channel_lem : (n : ℕ) → capacity_of (b.channel n) ≡ n
  pub subscribe_lem :
      (c : C)
      → (buffered (b.subscribe c).1 (b.subscribe c).0 ≡ some [])
        × (capacity_of (b.subscribe c).1 ≡ capacity_of c)
  pub send_lem :
      (event : SseLikeEvent) (c : C) (rx : ℕ) (q : List SseLikeEvent)
      → buffered c rx ≡ some q
      → length q < capacity_of c
      → ((b.send event c).0 ≡ true)
        × (buffered (b.send event c).1 rx ≡ some (q ++ event ∷ []))
        × (capacity_of (b.send event c).1 ≡ capacity_of c)

-- Whether an event is about the content.
abbrev pub is_about : ContentType → ContentId → Option ContentType → Option ContentId → Bool
is_about t i (some t') (some i') = holds (ContentKey-discrete (t', i') (t, i))
is_about t i _ _ = false

abbrev pub events_of : ContentType → ContentId → Option SseLikeEvent → List SseLikeEvent
events_of t i none = []
events_of t i (some event) =
    if is_about t i event.content_type event.content_id then event ∷ [] else []

module _ {C : Type 0} (m : SseManager C) (t : ContentType) (i : ContentId) where
  -- The events about the content in the payloads, in order.
  unfoldable pub events_about : List Text → List SseLikeEvent
  events_about [] = []
  events_about (payload ∷ payloads) =
      events_of t i (m.event_from_json payload) ++ events_about payloads

  module _ (laws : BroadcastLaws m.broadcast) (uuids : UuidText m.uuid_text) (rx capacity : ℕ) where
    -- The receiver is alive in the channel of the content, and `q` is in its buffer.
    pub record Holds (channels : Channels C) (q : List SseLikeEvent) : Type 0 where
      pub tx : C
      pub found : get Text-discrete (get_key m t i) channels ≡ some tx
      pub buffer : laws.buffered tx rx ≡ some q
      pub room : laws.capacity_of tx ≡ capacity

    abbrev kept :
        (channels : Channels C) (q : List SseLikeEvent)
        → Holds channels q
        → Holds channels (q ++ [])
    kept channels q h = subst (Holds channels) (sym (append-nil q)) h

    sent_other :
        (event : SseLikeEvent) (t' : ContentType) (i' : ContentId) (channels channels' : Channels C)
        (q : List SseLikeEvent)
        → ¬ (◌≡◌ {A = ContentKey} (t', i') (t, i))
        → send_to m event (get_key m t' i') (get Text-discrete (get_key m t' i') channels) channels
          ≡ some channels'
        → Holds channels q
        → Holds channels' q
    sent_other event t' i' channels channels' q ne sent h =
        let apart : get_key m t' i' ≢ get_key m t i =
          λ e. let same = get_key-injective m t' t i' i uuids e in ne (λ k. (same.0 k, same.1 k)) in
        record {
          tx = h.tx;
          found = elim (Option-cases (get Text-discrete (get_key m t' i') channels)) [
            | inl e ↦ ground (arith, sent, h.found, e)
            | inr (tx, e) ↦ ground (
              arith,
              sent,
              h.found,
              e,
              remove_locked-own m (get_key m t' i')
                  (insert Text-discrete (get_key m t' i') (m.broadcast.send event tx).1 channels),
              get-insert_ne Text-discrete (get_key m t' i') (get_key m t i)
                  (m.broadcast.send event tx).1 channels apart,
            )
          ];
          buffer = h.buffer;
          room = h.room;
        }

    sent_here :
        (event : SseLikeEvent) (channels channels' : Channels C) (q : List SseLikeEvent)
        → length q < capacity
        → send_to m event (get_key m t i) (get Text-discrete (get_key m t i) channels) channels
          ≡ some channels'
        → Holds channels q
        → Holds channels' (q ++ event ∷ [])
    sent_here event channels channels' q free sent h =
        let law = laws.send_lem event h.tx rx q h.buffer (omega (arith, h.room)) in
        let same : insert Text-discrete (get_key m t i) (m.broadcast.send event h.tx).1 channels
            ≡ channels' =
          ground (arith, sent, h.found, law.0) in
        record {
          tx = (m.broadcast.send event h.tx).1;
          found = rw (← same) (get-insert_self Text-discrete (get_key m t i) _ channels);
          buffer = law.1;
          room = law.2 ∙ h.room;
        }

    routed :
        (event : SseLikeEvent) (t' : Option ContentType) (i' : Option ContentId)
        (channels channels' : Channels C) (q : List SseLikeEvent)
        → length q < capacity
        → route m event t' i' channels ≡ some channels'
        → Holds channels q
        → Holds channels' (q ++ (if is_about t i t' i' then event ∷ [] else []))
    routed event none i' channels channels' q free sent h =
        kept channels' q (subst (λ c. Holds c q) (some-injective channels channels' sent) h)
    routed event (some t') none channels channels' q free sent h =
        kept channels' q (subst (λ c. Holds c q) (some-injective channels channels' sent) h)
    routed event (some t') (some i') channels channels' q free sent h =
        elim (ContentKey-discrete (t', i') (t, i))
          as (λ d. Holds channels' (q ++ (if holds d then event ∷ [] else []))) [
            | yes e ↦
                sent_here event channels channels' q free
                  (subst
                    (λ (k : ContentKey).
                      route m event (some k.0) (some k.1) channels ≡ some channels')
                    e sent)
                  h
            | no ne ↦ kept channels' q (sent_other event t' i' channels channels' q ne sent h)
          ]

    pub handled :
        (event : Option SseLikeEvent) (channels channels' : Channels C) (q : List SseLikeEvent)
        → length q < capacity
        → handle_event m event channels ≡ some channels'
        → Holds channels q
        → Holds channels' (q ++ events_of t i event)
    handled none channels channels' q free sent h =
        kept channels' q (subst (λ c. Holds c q) (some-injective channels channels' sent) h)
    handled (some event) channels channels' q free sent h =
        routed event event.content_type event.content_id channels channels' q free sent h

    pub length-events_of : (event : Option SseLikeEvent) → length (events_of t i event) ≤ 1
    length-events_of event = ground arith

    delivered :
        (payloads : List Text) (channels channels' : Channels C) (q : List SseLikeEvent)
        → length q + length payloads ≤ capacity
        → handle_all m payloads channels ≡ some channels'
        → Holds channels q
        → Holds channels' (q ++ events_about payloads)
    unfolding handle_all events_about
    delivered [] channels channels' q fits run h =
        kept channels' q (subst (λ c. Holds c q) (some-injective channels channels' run) h)
    delivered (payload ∷ payloads) channels channels' q fits run h =
        elim (Option-cases (handle_incoming_payload m payload channels)) [
          | inl e ↦ absurd (ground (arith, run, e))
          | inr (c, e) ↦
              let new = events_of t i (m.event_from_json payload) in
              subst (Holds channels') (append_assoc q new (events_about payloads)) (
                delivered payloads c channels' (q ++ new)
                  (omega (arith, length-append q new, length-events_of (m.event_from_json payload)))
                  (ground (arith, run, e))
                  (handled (m.event_from_json payload) channels c q (omega arith)
                    (unfold handle_incoming_payload in e) h))
        ]

  -- the channel that the first subscriber opens
  pub subscribe-Holds :
      (laws : BroadcastLaws m.broadcast) (uuids : UuidText m.uuid_text) (channels : Channels C)
      → get Text-discrete (get_key m t i) channels ≡ none
      → let (rx, subscribed) = subscribe m t i channels in Holds laws uuids rx 100 subscribed []
  unfolding subscribe
  subscribe-Holds laws uuids channels new = rw new (record {
    tx = (m.broadcast.subscribe (m.broadcast.channel 100)).1;
    found = get-insert_self Text-discrete (get_key m t i) _ channels;
    buffer = (laws.subscribe_lem (m.broadcast.channel 100)).0;
    room = (laws.subscribe_lem (m.broadcast.channel 100)).1 ∙ laws.channel_lem 100;
  })

  -- The first subscriber of a content receives the events about it, and no others: once the
  -- listener has heard some sessions and the shutdown, with at most 100 payloads, none of which
  -- blocks it, it has returned, and the receiver's buffer holds every event about the content in
  -- those payloads, once and in order.
  pub subscriber-receives :
      (laws : BroadcastLaws m.broadcast)
      → UuidText m.uuid_text
      → (channels channels' : Channels C) (sessions : List Session) (shutdown : Shutdown)
        (more : List Wake) (rest : List Round)
      → get Text-discrete (get_key m t i) channels ≡ none
      → length (all_heard sessions (last_heard shutdown)) ≤ 100
      → handle_all m (all_heard sessions (last_heard shutdown)) (subscribe m t i channels).1
        ≡ some channels'
      → let (rx, subscribed) = subscribe m t i channels in
        (run_cache_event_listener m (rounds_until m sessions shutdown more rest) subscribed
          ≡ returned channels')
        × (tx : C) × (get Text-discrete (get_key m t i) channels' ≡ some tx)
        × (laws.buffered tx rx ≡ some (events_about (all_heard sessions (last_heard shutdown))))
  subscriber-receives laws uuids channels channels' sessions shutdown more rest new few run =
      let payloads = all_heard sessions (last_heard shutdown) in
      let (rx, subscribed) = subscribe m t i channels in
      let start = subscribe-Holds laws uuids channels new in
      let end =
        delivered laws uuids rx 100 payloads subscribed channels' [] (omega arith) run start in
      (
        run_cache_event_listener-returns m sessions shutdown more rest subscribed
            ∙ ap (finished m) run,
        end.tx,
        end.found,
        end.buffer,
      )
