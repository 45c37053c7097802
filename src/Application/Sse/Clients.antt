-- ===== src/Application/Sse/Clients.antt =====
-- What a client of `sse_stream`, social_api/src/api/handlers.rs, is sent until the shutdown.
use be_in_crypto_social_api.Prelude.{
  ◌≡◌, ◌≢◌, refl, ap, List, [], ◌∷◌, ◌++◌, map, All, Option, none, some,
}
use be_in_crypto_social_api.Domain.Model.{DateTime}
use be_in_crypto_social_api.Api.Dto.{heartbeat, shutdown, SseLikeEvent}
use be_in_crypto_social_api.Application.Sse.{
  Signal, tick, cancel, closed, received, lagged, Frame, event_frame, shutdown_frame, latest_frame,
  bare, drain, sse_stream,
}

-- The last of some events.
abbrev pub last : List SseLikeEvent → Option SseLikeEvent
last [] = none
last (ev ∷ []) = some ev
last (ev ∷ ev' ∷ evs) = last (ev' ∷ evs)

-- The client's stream goes on: it is neither cancelled nor closed.
abbrev pub IsOpen : DateTime × Signal → Type 0
IsOpen (now, signal) = (signal ≢ cancel) × (signal ≢ closed)

-- What the client is to be sent: a heartbeat, an event as it is, or, where it has fallen behind, the
-- last event that is still there, in place of them all.
abbrev pub frame_of : DateTime × Signal → Frame
frame_of (now, tick) = event_frame (bare heartbeat now)
frame_of (now, cancel) = shutdown_frame (bare shutdown now)
frame_of (now, closed) = shutdown_frame (bare shutdown now)
frame_of (now, received event) = event_frame event
frame_of (now, lagged backlog) = latest_frame (last backlog)

drain-last :
    (latest : Option SseLikeEvent) (ev : SseLikeEvent) (evs : List SseLikeEvent)
    → drain latest (ev ∷ evs) ≡ last (ev ∷ evs)
unfolding drain
drain-last latest ev [] = refl
drain-last latest ev (ev' ∷ evs) = drain-last (some ev) ev' evs

drain-none : (evs : List SseLikeEvent) → drain none evs ≡ last evs
unfolding drain
drain-none [] = refl
drain-none (ev ∷ evs) = drain-last none ev evs

-- Until the shutdown a client is sent exactly one frame for each thing that wakes its stream, in
-- order; one that has fallen behind is sent the last event of its backlog alone. The shutdown is
-- told by a frame of its own, with which the stream ends, whatever would come after it.
pub sse_stream-shutdown :
    (signals after : List (DateTime × Signal)) (now : DateTime)
    → All IsOpen signals
    → sse_stream (signals ++ (now, cancel) ∷ after)
      ≡ map frame_of signals ++ shutdown_frame (bare shutdown now) ∷ []
unfolding sse_stream
sse_stream-shutdown [] after now open_ = refl
sse_stream-shutdown ((time, tick) ∷ signals) after now (o, os) =
    ap (◌∷◌ (event_frame (bare heartbeat time))) (sse_stream-shutdown signals after now os)
sse_stream-shutdown ((time, cancel) ∷ signals) after now (o, os) = absurd (o.0 refl)
sse_stream-shutdown ((time, closed) ∷ signals) after now (o, os) = absurd (o.1 refl)
sse_stream-shutdown ((time, received event) ∷ signals) after now (o, os) =
    ap (◌∷◌ (event_frame event)) (sse_stream-shutdown signals after now os)
sse_stream-shutdown ((time, lagged backlog) ∷ signals) after now (o, os) =
    rw (drain-none backlog)
      (ap (◌∷◌ (latest_frame (last backlog))) (sse_stream-shutdown signals after now os))
