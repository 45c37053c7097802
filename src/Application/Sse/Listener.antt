-- ===== src/Application/Sse/Listener.antt =====
-- The task of `run_cache_event_listener`, social_api/src/application/sse.rs, to its end.
use be_in_crypto_social_api.Prelude.{
  Text, ◌≡◌, refl, true, false, List, [], ◌∷◌, ◌++◌, map, Option, none, some, Option-cases, inl,
  inr,
}
use be_in_crypto_social_api.Application.Sse.{
  SseManager, Channels, Wake, message, ended, cancelled, Round, Outcome, returned, blocked,
  handle_incoming_payload, process_stream, run_cache_event_listener,
}

-- What happens between two cancellations: a connection that failed, or the payloads that one
-- brought until it broke.
pub data Session : Type 0 where
  unreachable : Session
  broken : List Text → Session

-- Where the listener is when the program shuts down: at the head of its loop, in a stream that has
-- brought some payloads, or asleep after a session.
pub data Shutdown : Type 0 where
  at_head : Shutdown
  in_stream : List Text → Shutdown
  asleep : Session → Shutdown

abbrev pub heard : Session → List Text
heard unreachable = []
heard (broken payloads) = payloads

-- every payload that is brought, in order
abbrev pub all_heard : List Session → List Text → List Text
all_heard [] rest = rest
all_heard (session ∷ sessions) rest = heard session ++ all_heard sessions rest

abbrev pub last_heard : Shutdown → List Text
last_heard at_head = []
last_heard (in_stream payloads) = payloads
last_heard (asleep session) = heard session

abbrev pub wakes_of : List Text → Wake → List Wake → List Wake
wakes_of [] end rest = end ∷ rest
wakes_of (payload ∷ payloads) end rest = message payload ∷ wakes_of payloads end rest

abbrev pub connection : Session → Option (List Wake)
connection unreachable = none
connection (broken payloads) = some (wakes_of payloads ended [])

abbrev pub round_of : Session → Round
round_of session = record {
  is_cancelled = false;
  stream = connection session;
  cancelled_asleep = false;
}

abbrev pub last_round : Shutdown → List Wake → Round
last_round at_head more = record { is_cancelled = true; stream = none; cancelled_asleep = true }
last_round (in_stream payloads) more = record {
  is_cancelled = false;
  stream = some (wakes_of payloads cancelled more);
  cancelled_asleep = true;
}
last_round (asleep session) more = record {
  is_cancelled = false;
  stream = connection session;
  cancelled_asleep = true;
}

module _ {C : Type 0} (m : SseManager C) where
  unfoldable pub handle_all : List Text → Channels C → Option (Channels C)
  handle_all [] channels = some channels
  handle_all (payload ∷ payloads) channels = elim (handle_incoming_payload m payload channels) [
    | none ↦ none
    | some channels' ↦ handle_all payloads channels'
  ]

  abbrev bind : {A B : Type 0} → Option A → (A → Option B) → Option B
  bind none f = none
  bind (some a) f = f a

  abbrev pub finished : Option (Channels C) → Outcome C
  finished none = blocked
  finished (some channels) = returned channels

  handle_all-append :
      (xs ys : List Text) (channels : Channels C)
      → handle_all (xs ++ ys) channels ≡ bind (handle_all xs channels) (handle_all ys)
  unfolding handle_all
  handle_all-append [] ys channels = refl
  handle_all-append (x ∷ xs) ys channels =
      elim (Option-cases (handle_incoming_payload m x channels)) [
        | inl e ↦ rw (e, handle_all) refl
        | inr (c, e) ↦ rw (e, handle_all) (handle_all-append xs ys c)
      ]

  process_stream-wakes_of :
      (payloads : List Text) (end : Wake) (rest : List Wake) (channels : Channels C)
      → process_stream m (wakes_of payloads end rest) channels
        ≡ bind (handle_all payloads channels) (process_stream m (end ∷ rest))
  unfolding process_stream handle_all
  process_stream-wakes_of [] end rest channels = refl
  process_stream-wakes_of (x ∷ xs) end rest channels =
      elim (Option-cases (handle_incoming_payload m x channels)) [
        | inl e ↦ rw (e, handle_all, process_stream) refl
        | inr (c, e) ↦ rw (e, handle_all, process_stream) (process_stream-wakes_of xs end rest c)
      ]

  abbrev go_on : List Round → Option (Channels C) → Outcome C
  go_on rounds none = blocked
  go_on rounds (some channels) = run_cache_event_listener m rounds channels

  round_of-heard :
      (session : Session) (rounds : List Round) (channels : Channels C)
      → run_cache_event_listener m (round_of session ∷ rounds) channels
        ≡ go_on rounds (handle_all (heard session) channels)
  unfolding run_cache_event_listener handle_all process_stream
  round_of-heard unreachable rounds channels = refl
  round_of-heard (broken payloads) rounds channels =
      elim (Option-cases (handle_all payloads channels)) [
        | inl e ↦ rw (process_stream-wakes_of payloads ended [] channels, e) refl
        | inr (c, e) ↦ rw (process_stream-wakes_of payloads ended [] channels, e) refl
      ]

  last_round-heard :
      (shutdown : Shutdown) (more : List Wake) (rounds : List Round) (channels : Channels C)
      → run_cache_event_listener m (last_round shutdown more ∷ rounds) channels
        ≡ finished (handle_all (last_heard shutdown) channels)
  unfolding run_cache_event_listener handle_all process_stream
  last_round-heard at_head more rounds channels = refl
  last_round-heard (asleep unreachable) more rounds channels = refl
  last_round-heard (asleep (broken payloads)) more rounds channels =
      elim (Option-cases (handle_all payloads channels)) [
        | inl e ↦ rw (process_stream-wakes_of payloads ended [] channels, e) refl
        | inr (c, e) ↦ rw (process_stream-wakes_of payloads ended [] channels, e) refl
      ]
  last_round-heard (in_stream payloads) more rounds channels =
      elim (Option-cases (handle_all payloads channels)) [
        | inl e ↦ rw (process_stream-wakes_of payloads cancelled more channels, e) refl
        | inr (c, e) ↦ rw (process_stream-wakes_of payloads cancelled more channels, e) refl
      ]

  abbrev pub rounds_until : List Session → Shutdown → List Wake → List Round → List Round
  rounds_until sessions shutdown more rest =
      map round_of sessions ++ last_round shutdown more ∷ rest

  -- However many connections failed or broke before the shutdown, and wherever it finds the task,
  -- the listener handles every payload that any connection brought until then, once and in order,
  -- and then returns; it fails to return only if one of those payloads blocks it.
  pub run_cache_event_listener-returns :
      (sessions : List Session) (shutdown : Shutdown) (more : List Wake) (rest : List Round)
      (channels : Channels C)
      → run_cache_event_listener m (rounds_until sessions shutdown more rest) channels
        ≡ finished (handle_all (all_heard sessions (last_heard shutdown)) channels)
  run_cache_event_listener-returns [] shutdown more rest channels =
      last_round-heard shutdown more rest channels
  run_cache_event_listener-returns (session ∷ sessions) shutdown more rest channels =
      elim (Option-cases (handle_all (heard session) channels)) [
        | inl e ↦
            rw
              (
                round_of-heard session (rounds_until sessions shutdown more rest) channels,
                e,
                handle_all-append (heard session) (all_heard sessions (last_heard shutdown))
                    channels,
                e,
              )
              refl
        | inr (c, e) ↦
            rw
              (
                round_of-heard session (rounds_until sessions shutdown more rest) channels,
                e,
                handle_all-append (heard session) (all_heard sessions (last_heard shutdown))
                    channels,
                e,
              )
              (run_cache_event_listener-returns sessions shutdown more rest c)
      ]
