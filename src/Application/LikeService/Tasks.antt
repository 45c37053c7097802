-- ===== src/Application/LikeService/Tasks.antt =====
-- The bodies of the spawned tasks, and `full_health_check`.
use be_in_crypto_social_api.Prelude.{
  ℕ, Text, Text-discrete, codes, List, [], ◌∷◌, holds, if◌then◌else◌, remove,
}
use be_in_crypto_social_api.Prelude.Exec.{Result, ok, err, pure, attempt, ◌>>=◌, ◌>>◌}
use be_in_crypto_social_api.Domain.Errors.{DomainError}
use be_in_crypto_social_api.Domain.Model.{ContentType, as_opt}
use be_in_crypto_social_api.Api.Dto.{TopLikeItem}
use be_in_crypto_social_api.Domain.Ports.{Call}
use be_in_crypto_social_api.Application.LikeService.Service.{
  LikeService, State, Locks, Task, publish, rehydrate, refresh, on_world,
}

-- the loop `for key in locked_keys`, on the task's own map
unfoldable pub release_all : List Text → Locks → Locks
release_all [] locks = locks
release_all (key ∷ keys) locks = release_all keys (remove Text-discrete key locks)

abbrev pub canary_ttl : Text → ℕ
canary_ttl w_str = if holds (Text-discrete w_str (codes "24h")) then 30 else 300

module _ {W : Type 0} (svc : LikeService W) where
  -- the `match` of the background refresh
  unfoldable pub store_refreshed :
      Text → ContentType → Result DomainError (List TopLikeItem) → Call (State W) (Unit {0})
  store_refreshed w_str c_type (ok new_items) = do
    _ ← attempt (
        on_world
          (svc.cache_repo.set_leaderboard_with_canary w_str c_type new_items (canary_ttl w_str)))
    pure tt
  store_refreshed w_str c_type (err e) = pure tt

  -- A task's own variables end with it: the map that `rehydrate` has emptied is dropped.
  unfoldable pub run_task : Task → Call (State W) (Unit {0})
  unfolding release_all store_refreshed
  run_task (publish event) = do
    _ ← attempt (on_world (svc.cache_repo.publish_like_event event))
    pure tt
  run_task (rehydrate db_counts locked_keys rehydration_set) = do
    _ ← attempt (on_world (svc.cache_repo.set_counts_batch db_counts))
    let rehydration_set' = release_all locked_keys rehydration_set
    pure tt
  run_task (refresh w_str c_type since_val limit) = do
    new_items ← attempt (on_world (svc.db_repo.get_top_likes (as_opt c_type) since_val limit))
    store_refreshed w_str c_type new_items

  -- the runtime runs the tasks that wait, first in first out
  unfoldable pub run_tasks : List Task → State W → State W
  run_tasks [] s = s
  run_tasks (task ∷ tasks) s = run_tasks tasks (run_task task s).1

  unfoldable pub run_spawned : State W → State W
  unfolding run_tasks
  run_spawned s = run_tasks s.spawned (record s { spawned = [] })

  unfoldable pub full_health_check : Call (State W) (Unit {0})
  full_health_check = do
    on_world svc.db_repo.health_check
    on_world svc.cache_repo.health_check
    on_world svc.extern_repo.health_check
    pure tt
