-- ===== src/Application/LikeService/Service.antt =====
-- The struct `LikeService`, its mutable parts and its spawned tasks.
-- A method is an action on `State W`: the world of the repositories, the map of flight locks, and
-- the tasks handed to `tokio::spawn` that have not run yet.
use be_in_crypto_social_api.Prelude.{
  ℕ, ◌+◌, ℤ, Text, Text-discrete, codes, List, [], ◌∷◌, ◌++◌, Option, none, some, get, insert,
  remove,
}
use be_in_crypto_social_api.Prelude.Exec.{Exec}
use be_in_crypto_social_api.Domain.Model.{Uuid, DateTime, ContentId, ContentType, UserId}
use be_in_crypto_social_api.Domain.Ports.{LikeDbRepository, LikeCacheRepository, ExternalValidator}
use be_in_crypto_social_api.Api.Dto.{ContentCount, SseEventType, SseLikeEvent}

-- An `Arc<Mutex<()>>`, by its identity.
abbrev pub Mutex : Type 0
Mutex = ℕ

abbrev pub Locks : Type 0
Locks = List (Text × Mutex)

-- The closures given to `tokio::spawn`, with the values that they have moved in.
pub data Task : Type 0 where
  publish : SseLikeEvent → Task
  rehydrate : List ContentCount → (locked_keys : List Text) → (rehydration_set : Locks) → Task
  refresh : (w_str : Text) → ContentType → (since_val : Option DateTime) → (limit : ℤ) → Task

pub record State (W : Type 0) : Type 0 where
  pub world : W
  pub flight_locks : Locks
  pub next_mutex : ℕ
  pub spawned : List Task

-- The struct, beside what its methods take from the runtime: the clock, the `Display` of a UUID,
-- and what the other tasks do until a mutex is granted.
pub record LikeService (W : Type 0) : Type 0 where
  pub db_repo : LikeDbRepository W
  pub cache_repo : LikeCacheRepository W
  pub extern_repo : ExternalValidator W
  pub now : W → DateTime
  pub uuid_text : Uuid → Text
  pub until_granted : Mutex → State W → State W

module _ {E W : Type 0} where
  abbrev pub on_world : {A : Type 0} → Exec E W A → Exec E (State W) A
  on_world m s = let (r, w) = m s.world in (r, record s { world = w })

module _ {W : Type 0} where
  -- the state of a service that `LikeService::new` has made
  unfoldable pub new : W → State W
  new w = record { world = w; flight_locks = []; next_mutex = 0; spawned = [] }

  -- `tokio::spawn`
  abbrev pub spawn : Task → State W → State W
  spawn task s = record s { spawned = s.spawned ++ (task ∷ []) }

  -- `flight_locks.remove(&key)`
  abbrev pub unlock : Text → State W → State W
  unlock key s = record s { flight_locks = remove Text-discrete key s.flight_locks }

  -- `flight_locks.insert(key, Arc::new(Mutex::new(())))`: a new mutex, and the one it replaces
  unfoldable pub insert_lock : Text → State W → Option Mutex × State W
  insert_lock key s = (
    get Text-discrete key s.flight_locks,
    record s {
      flight_locks = insert Text-discrete key s.next_mutex s.flight_locks;
      next_mutex = s.next_mutex + 1;
    },
  )

  -- `flight_locks.entry(key).or_insert_with(…).clone()`
  unfoldable pub entry_lock : Text → State W → Mutex × State W
  entry_lock key s = elim (get Text-discrete key s.flight_locks) [
    | some mutex ↦ (mutex, s)
    | none ↦ (
      s.next_mutex,
      record s {
        flight_locks = insert Text-discrete key s.next_mutex s.flight_locks;
        next_mutex = s.next_mutex + 1;
      },
    )
  ]

  module _ (svc : LikeService W) where
    -- `format_lock_key`, at the one `RefreshType`
    unfoldable pub format_lock_key : ContentType → ContentId → Text
    format_lock_key c_type c_id =
        codes "lock:count:" ++ (c_type.as_str ++ (codes ":" ++ svc.uuid_text c_id.uuid))

    unfoldable pub send_sse_event :
        ContentId → ContentType → UserId → ℕ → SseEventType → State W → State W
    send_sse_event content_id content_type user_id count e_type s =
        spawn
          (publish (record {
            event = e_type;
            content_type = some content_type;
            content_id = some content_id;
            user_id = some user_id;
            count = some count;
            timestamp = svc.now s.world;
          }))
          s
