-- ===== src/Application/LikeService/Batch/Leak.antt =====
-- What becomes of the flight locks of `get_likes_count_batch`: the spawned task releases them in
-- its copy of the map, so they stay, and later batches pass over their items.
use be_in_crypto_social_api.Prelude.{
  ℕ, ◌≤◌, ◌≡◌, refl, sym, ap, ◌∙◌, Text, Text-discrete, List, [], ◌∷◌, All, length, some, arith,
  get, insert, get-insert_self, get-insert_ne,
}
use be_in_crypto_social_api.Prelude.Exec.{ok}
use be_in_crypto_social_api.Api.Dto.{ContentItem, ContentCount}
use be_in_crypto_social_api.Application.LikeService.Service.{
  LikeService, State, Locks, Task, publish, rehydrate, refresh, insert_lock, format_lock_key,
}
use be_in_crypto_social_api.Application.LikeService.Batch.{
  split_cached, lock_missing, fetch_missing, complete_counts, get_likes_count_batch,
}
use be_in_crypto_social_api.Application.LikeService.Tasks.{run_task, run_tasks, run_spawned}

abbrev IsLocked : Text → Locks → Type 0
IsLocked key locks = (m : ℕ) × (get Text-discrete key locks ≡ some m)

insert-IsLocked :
    (key k : Text) (m : ℕ) (locks : Locks)
    → IsLocked key locks
    → IsLocked key (insert Text-discrete k m locks)
insert-IsLocked key k m locks (n, h) = elim (Text-discrete k key) [
  | yes e ↦ (
    m,
    ap (λ (q : Text). get Text-discrete q (insert Text-discrete k m locks)) (sym e)
        ∙ get-insert_self Text-discrete k m locks,
  )
  | no ne ↦ (n, get-insert_ne Text-discrete k key m locks ne ∙ h)
]

pub split_cached-nil : (items : List ContentItem) → split_cached [] items ≡ ([], items)
unfolding split_cached get
split_cached-nil [] = refl
split_cached-nil (item ∷ items) = rw (split_cached-nil items) refl

module _ {W : Type 0} (svc : LikeService W) where
  abbrev key_of : ContentItem → Text
  key_of item = format_lock_key svc item.content_type item.content_id

  abbrev IsHeld : State W → ContentItem → Type 0
  IsHeld s item = IsLocked (key_of item) s.flight_locks

  lock_missing-keeps :
      (key : Text) (items : List ContentItem) (s : State W)
      → IsLocked key s.flight_locks
      → IsLocked key (lock_missing svc items s).1.flight_locks
  unfolding lock_missing insert_lock
  lock_missing-keeps key [] s h = h
  lock_missing-keeps key (item ∷ items) s h =
      lock_missing-keeps key items (insert_lock (key_of item) s).1
        (insert-IsLocked key (key_of item) s.next_mutex s.flight_locks h)

  lock_missing-locks :
      (items : List ContentItem) (s : State W) → All (IsHeld (lock_missing svc items s).1) items
  unfolding lock_missing insert_lock
  lock_missing-locks [] s = tt
  lock_missing-locks (item ∷ items) s =
      let s₁ = (insert_lock (key_of item) s).1 in
      (
        lock_missing-keeps (key_of item) items s₁
            (s.next_mutex, get-insert_self Text-discrete (key_of item) s.next_mutex s.flight_locks),
        lock_missing-locks items s₁,
      )

  pub lock_missing-world :
      (items : List ContentItem) (s : State W)
      → ((lock_missing svc items s).1.world ≡ s.world)
        × ((lock_missing svc items s).1.spawned ≡ s.spawned)
  unfolding lock_missing insert_lock
  lock_missing-world [] s = (refl, refl)
  lock_missing-world (item ∷ items) s = lock_missing-world items (insert_lock (key_of item) s).1

  IsHeld-after :
      (item : ContentItem) (items : List ContentItem) (s : State W)
      → All (IsHeld s) items
      → All (IsHeld (insert_lock (key_of item) s).1) items
  unfolding insert_lock
  IsHeld-after item [] s h = tt
  IsHeld-after item (x ∷ items) s (held, rest) = (
    insert-IsLocked (key_of x) (key_of item) s.next_mutex s.flight_locks held,
    IsHeld-after item items s rest,
  )

  -- items whose keys are held are not fetched
  lock_missing-held :
      (items : List ContentItem) (s : State W)
      → All (IsHeld s) items
      → (lock_missing svc items s).0 ≡ ([], [])
  unfolding lock_missing insert_lock
  lock_missing-held [] s h = refl
  lock_missing-held (item ∷ items) s ((m, held), rest) =
      rw
        (
          held,
          lock_missing-held items (insert_lock (key_of item) s).1 (IsHeld-after item items s rest),
        )
        refl

  run_task-locks :
      (task : Task) (s : State W) → (run_task svc task s).1.flight_locks ≡ s.flight_locks
  unfolding run_task
  run_task-locks (publish event) s = refl
  run_task-locks (rehydrate counts keys set) s = refl
  run_task-locks (refresh w_str c_type since limit) s = ground arith

  run_tasks-locks :
      (tasks : List Task) (s : State W) → (run_tasks svc tasks s).flight_locks ≡ s.flight_locks
  unfolding run_tasks
  run_tasks-locks [] s = refl
  run_tasks-locks (task ∷ tasks) s =
      run_tasks-locks tasks (run_task svc task s).1 ∙ run_task-locks task s

  run_spawned-locks : (s : State W) → (run_spawned svc s).flight_locks ≡ s.flight_locks
  unfolding run_spawned
  run_spawned-locks s = run_tasks-locks s.spawned (record s { spawned = [] })

  fetch_missing-locks :
      (results : List ContentCount) (to_fetch : List Text × List ContentItem) (s : State W)
      → (fetch_missing svc results to_fetch s).1.flight_locks ≡ s.flight_locks
  unfolding fetch_missing
  fetch_missing-locks results (keys, []) s = refl
  fetch_missing-locks results (keys, item ∷ items) s = ground arith

  IsHeld-by :
      (items : List ContentItem) (s s' : State W)
      → s'.flight_locks ≡ s.flight_locks
      → All (IsHeld s) items
      → All (IsHeld s') items
  IsHeld-by [] s s' e h = tt
  IsHeld-by (x ∷ items) s s' e ((m, held), rest) = ((m, rw e held), IsHeld-by items s s' e rest)

  complete_counts-locks :
      (items : List ContentItem) (s : State W)
      → All (IsHeld (complete_counts svc ([], items) s).1) items
  unfolding complete_counts
  complete_counts-locks [] s = tt
  complete_counts-locks (item ∷ items) s =
      let s₁ = (lock_missing svc (item ∷ items) s).1 in
      IsHeld-by (item ∷ items) s₁ (fetch_missing svc [] (lock_missing svc (item ∷ items) s).0 s₁).1
        (fetch_missing-locks [] (lock_missing svc (item ∷ items) s).0 s₁)
        (lock_missing-locks (item ∷ items) s)

  complete_counts-held :
      (items : List ContentItem) (s : State W)
      → All (IsHeld s) items
      → let (r, s') = complete_counts svc ([], items) s in (r ≡ ok []) × (s'.world ≡ s.world)
  unfolding complete_counts
  complete_counts-held [] s h = (refl, refl)
  complete_counts-held (item ∷ items) s h =
      rw (lock_missing-held (item ∷ items) s h)
        (unfold fetch_missing in (refl, (lock_missing-world (item ∷ items) s).0))

  module _ (items : List ContentItem) (few : length items ≤ 100) (s : State W) (w₁ : W)
      (uncached : svc.cache_repo.get_counts_batch items s.world ≡ (ok [], w₁)) where
    batch_lem :
        get_likes_count_batch svc items s
        ≡ complete_counts svc ([], items) (record s { world = w₁ })
    unfolding get_likes_count_batch
    batch_lem = ground (arith, uncached, split_cached-nil items)

  -- A batch of at most 100 items of which the cache has none, and then, when all spawned tasks have
  -- run, a second batch of the same items of which the cache again has none (as when the entries
  -- have expired): whatever the first one returned, the second one returns no count at all, and
  -- does not ask the database.
  pub second_batch_omits :
      (items : List ContentItem) (s : State W) (w₁ w₂ : W)
      → length items ≤ 100
      → svc.cache_repo.get_counts_batch items s.world ≡ (ok [], w₁)
      → svc.cache_repo.get_counts_batch items
          (run_spawned svc (get_likes_count_batch svc items s).1).world
        ≡ (ok [], w₂)
      → let s' = run_spawned svc (get_likes_count_batch svc items s).1 in
        let (r, s'') = get_likes_count_batch svc items s' in (r ≡ ok []) × (s''.world ≡ w₂)
  second_batch_omits items s w₁ w₂ few first second =
      let after = (get_likes_count_batch svc items s).1 in
      let s' = run_spawned svc after in
      let held : All (IsHeld after) items =
        rw (batch_lem items few s w₁ first)
          (complete_counts-locks items (record s { world = w₁ })) in
      let held' : All (IsHeld (record s' { world = w₂ })) items =
        IsHeld-by items after (record s' { world = w₂ }) (run_spawned-locks after) held in
      rw (batch_lem items few s' w₂ second)
        (complete_counts-held items (record s' { world = w₂ }) held')
