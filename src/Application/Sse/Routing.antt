-- ===== src/Application/Sse/Routing.antt =====
-- To which channels an event of Redis goes, and when the listener stops for good.
use be_in_crypto_social_api.Prelude.{
  Text, Text-discrete, ◌≡◌, [], ◌∷◌, none, some, true, get, insert, get-insert_self, get-insert_ne,
  arith,
}
use be_in_crypto_social_api.Domain.Model.{ContentId, ContentType}
use be_in_crypto_social_api.Domain.Uuids.{UuidText, keyed-injective}
use be_in_crypto_social_api.Api.Dto.{SseLikeEvent}
use be_in_crypto_social_api.Application.Sse.{
  SseManager, Channels, get_key, remove_locked, handle_incoming_payload,
}

module _ {C : Type 0} (m : SseManager C) where
  -- Two contents have one channel only if they are one content.
  pub get_key-injective :
      (t t' : ContentType) (i i' : ContentId)
      → UuidText m.uuid_text
      → get_key m t i ≡ get_key m t' i'
      → (t ≡ t') × (i ≡ i')
  unfolding get_key
  get_key-injective t t' i i' laws h = keyed-injective m.uuid_text t t' i i' laws h

  -- a task that holds a reference to the entry of a key cannot remove the key
  pub remove_locked-own :
      (key : Text) (channels : Channels C) → remove_locked m (key ∷ []) key channels ≡ none
  unfolding remove_locked
  remove_locked-own key channels = ground arith

  module _ (payload : Text) (event : SseLikeEvent) (t : ContentType) (i : ContentId)
      (channels : Channels C) (tx tx' : C) (read : m.event_from_json payload ≡ some event)
      (of_type : event.content_type ≡ some t) (of_id : event.content_id ≡ some i)
      (open_channel : get Text-discrete (get_key m t i) channels ≡ some tx) where
    -- An event that the channel of its content accepts is sent there, and the channel of every other
    -- content stays as it is.
    pub event-routed :
        UuidText m.uuid_text
        → m.broadcast.send event tx ≡ (true, tx')
        → (channels' : Channels C) × (handle_incoming_payload m payload channels ≡ some channels')
          × (get Text-discrete (get_key m t i) channels' ≡ some tx')
          × ((t' : ContentType) (i' : ContentId)
              → ¬ ((t ≡ t') × (i ≡ i'))
              → get Text-discrete (get_key m t' i') channels'
                ≡ get Text-discrete (get_key m t' i') channels)
    unfolding handle_incoming_payload
    event-routed laws sent = (
      insert Text-discrete (get_key m t i) tx' channels,
      ground (arith, read, of_type, of_id, open_channel, sent),
      get-insert_self Text-discrete (get_key m t i) tx' channels,
      λ t' i' ne.
          get-insert_ne Text-discrete (get_key m t i) (get_key m t' i') tx' channels
            (λ e. ne (get_key-injective t t' i i' laws e)),
    )
