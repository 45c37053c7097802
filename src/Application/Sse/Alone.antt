-- ===== src/Application/Sse/Alone.antt =====
-- A listener with the channel of one content, whose receiver is alive: no payload blocks it.
use be_in_crypto_social_api.Prelude.{
  ℕ, ◌+◌, ◌≤◌, ◌<◌, Text, Text-discrete, ◌≡◌, ◌≢◌, refl, sym, subst, List, [], ◌∷◌, ◌++◌, length,
  length-append, Option, none, some, get, insert, arith,
}
use be_in_crypto_social_api.Domain.Model.{ContentId, ContentType, ContentKey, ContentKey-discrete}
use be_in_crypto_social_api.Domain.Uuids.{UuidText}
use be_in_crypto_social_api.Api.Dto.{SseLikeEvent}
use be_in_crypto_social_api.Application.Sse.Routing.{get_key-injective}
use be_in_crypto_social_api.Application.Sse.Listener.{handle_all}
use be_in_crypto_social_api.Application.Sse.Delivery.{
  BroadcastLaws, Holds, handled, events_of, length-events_of,
}
use be_in_crypto_social_api.Application.Sse.{
  SseManager, Channels, get_key, handle_incoming_payload, route, handle_event,
}

module _ {C : Type 0} (m : SseManager C) (t : ContentType) (i : ContentId)
    (laws : BroadcastLaws m.broadcast) (uuids : UuidText m.uuid_text) (rx capacity : ℕ) where
  abbrev only : C → Channels C
  only tx = (get_key m t i, tx) ∷ []

  pub get-only : (tx : C) → get Text-discrete (get_key m t i) (only tx) ≡ some tx
  unfolding get
  get-only tx = ground arith

  routed_here :
      (event : SseLikeEvent) (tx : C) (q : List SseLikeEvent)
      → length q < capacity
      → Holds m t i laws uuids rx capacity (only tx) q
      → route m event (some t) (some i) (only tx) ≡ some (only (m.broadcast.send event tx).1)
  unfolding get insert
  routed_here event tx q free h =
      let same : h.tx ≡ tx = ground (arith, h.found) in
      let law = laws.send_lem event h.tx rx q h.buffer (omega (arith, h.room)) in
      ground (arith, same, law.0)

  routed_elsewhere :
      (event : SseLikeEvent) (t' : ContentType) (i' : ContentId) (tx : C)
      → ¬ (◌≡◌ {A = ContentKey} (t', i') (t, i))
      → route m event (some t') (some i') (only tx) ≡ some (only tx)
  unfolding get
  routed_elsewhere event t' i' tx ne =
      let apart : get_key m t i ≢ get_key m t' i' = λ e.
        let same = get_key-injective m t t' i i' uuids e in
        ne (λ k. (sym same.0 k, sym same.1 k)) in
      ground (arith, apart)

  routed :
      (event : SseLikeEvent) (t' : Option ContentType) (i' : Option ContentId) (tx : C)
      (q : List SseLikeEvent)
      → length q < capacity
      → Holds m t i laws uuids rx capacity (only tx) q
      → (tx' : C) × (route m event t' i' (only tx) ≡ some (only tx'))
  routed event none i' tx q free h = (tx, refl)
  routed event (some t') none tx q free h = (tx, refl)
  routed event (some t') (some i') tx q free h = elim (ContentKey-discrete (t', i') (t, i)) [
    | yes e ↦ (
      (m.broadcast.send event tx).1,
      subst
          (λ (k : ContentKey).
            route m event (some k.0) (some k.1) (only tx)
            ≡ some (only (m.broadcast.send event tx).1))
          (sym e) (routed_here event tx q free h),
    )
    | no ne ↦ (tx, routed_elsewhere event t' i' tx ne)
  ]

  handle_event-only :
      (event : Option SseLikeEvent) (tx : C) (q : List SseLikeEvent)
      → length q < capacity
      → Holds m t i laws uuids rx capacity (only tx) q
      → (tx' : C) × (handle_event m event (only tx) ≡ some (only tx'))
  handle_event-only none tx q free h = (tx, refl)
  handle_event-only (some event) tx q free h =
      routed event event.content_type event.content_id tx q free h

  -- As long as the receiver's buffer has room for all of them, every payload is handled.
  pub handle_all-only :
      (payloads : List Text) (tx : C) (q : List SseLikeEvent)
      → length q + length payloads ≤ capacity
      → Holds m t i laws uuids rx capacity (only tx) q
      → (tx' : C) × (handle_all m payloads (only tx) ≡ some (only tx'))
  unfolding handle_all handle_incoming_payload
  handle_all-only [] tx q fits h = (tx, refl)
  handle_all-only (payload ∷ payloads) tx q fits h =
      let event = m.event_from_json payload in
      let (tx₁, step) = handle_event-only event tx q (omega arith) h in
      let (tx', rest) =
        handle_all-only payloads tx₁ (q ++ events_of t i event)
          (omega (
            arith,
            length-append q (events_of t i event),
            length-events_of m t i laws uuids rx capacity event,
          ))
          (handled m t i laws uuids rx capacity event (only tx) (only tx₁) q (omega arith) step
            h) in
      (tx', rw (step, handle_all, handle_incoming_payload) rest)
