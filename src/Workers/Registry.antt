-- ===== src/Workers/Registry.antt =====
-- internal/workers/registry.go: the registry of workers, a cache in front of the repository.
-- An error of the repository is only logged, so the cache goes on from where it was. Each
-- operation is one step here; the mutex is held over it, but HeartbeatAt writes the beat to the
-- repository after it has let the mutex go.
use almichot_cloud.Prelude.{
  ℤ, pos, ℕ, String, Bool, true, false, Option, none, some, List, [], ◌∷◌, lookup, filter,
  if◌then◌else◌, Result, ok, err,
}
use almichot_cloud.Workers.Model.{
  Worker, WorkerHealth, ready, draining, suspected, unreachable, is_healthy, is_unreachable,
  is_build_worker, is_runtime_worker,
}
use almichot_cloud.Workers.Health.{
  HealthStateMachineConfig, default_health_config, apply_heartbeat_success,
}
use almichot_cloud.Workers.Repository.{
  Table, empty_table, Error, worker_not_found, deref, store, enter, list, values, upsert,
  update_heartbeat, set_drain, adjust,
}

pub record Registry : Type 0 where
  pub cache : Table
  pub repo : Table
  pub health_cfg : HealthStateMachineConfig

-- Load the listed workers into the cache; a later one of the same key or ID replaces an earlier.
warm : List Worker → Table → Table
warm [] t = t
warm (w ∷ ws) t = warm ws (enter w t)

-- NewRegistry: a warm cache over the repository's content.
unfoldable pub new_registry : Table → Registry
unfolding warm list enter
new_registry repo = record {
  cache = warm (list repo) empty_table;
  repo = repo;
  health_cfg = default_health_config;
}

-- What the repository holds after a call whose error is only logged.
abbrev kept : Table → Result Error Table → Table
kept t (ok t') = t'
kept t (err e) = t

-- findWorkerLocked: by key first, then by ID.
unfoldable pub find_worker : String → Table → Option ℕ
find_worker k t = elim (lookup k t.workers) [ some p ↦ some p | none ↦ lookup k t.by_id ]

-- An operation on the worker that an ID or a key names.
abbrev pub found_at {ℓ} :
    {A : Type ℓ} → (ℕ → Worker → A) → Option ℕ → Option Worker → Result Error A
found_at f (some p) (some w) = ok (f p w)
found_at f _ _ = err worker_not_found

abbrev pub with_worker {ℓ} : {A : Type ℓ} → String → Registry → (ℕ → Worker → A) → Result Error A
with_worker k r f = let p = find_worker k r.cache in found_at f p (deref r.cache p)

-- The registry with a worker written through a pointer.
abbrev pub put : Registry → ℕ → Worker → Registry
put r p w = record r { cache = store r.cache p w }

unfoldable pub set_health_config : HealthStateMachineConfig → Registry → Registry
set_health_config cfg r = record r { health_cfg = cfg }

-- HeartbeatAt; Heartbeat is the same at the current time. `stored_at` is the repository's clock.
unfoldable pub heartbeat_at : ℤ → String → ℤ → Registry → Result Error Registry
unfolding find_worker update_heartbeat
heartbeat_at stored_at k at r = with_worker k r λ p w.
    let w' =
      apply_heartbeat_success r.health_cfg
        (record w { last_beat_at = some at; updated_at = some at }) in
    record (put r p w') { repo = kept r.repo (update_heartbeat stored_at w.worker_key at r.repo) }

-- SetHealthWithReason and SetHealth; the reason is only logged.
unfoldable pub set_health :
    ℤ → ℤ → String → WorkerHealth → Registry → Result Error (Worker × Registry)
unfolding find_worker upsert
set_health now stored_at k h r = with_worker k r λ p w.
    let changed = record w {
      health = h;
      consecutive_beats = if is_healthy h then w.consecutive_beats else pos 0;
      updated_at = some now;
    } in
    let (w', repo') = upsert stored_at changed r.repo in (w', record (put r p w') { repo = repo' })

-- The health that SetPartitioned leaves.
abbrev partition_health : Bool → WorkerHealth → WorkerHealth
partition_health true h = unreachable
partition_health false h = if is_unreachable h then suspected else h

unfoldable pub set_partitioned : ℤ → String → Bool → Registry → Result Error (Worker × Registry)
unfolding find_worker
set_partitioned now k partitioned r = with_worker k r λ p w.
    let w' = record w {
      is_partitioned = partitioned;
      health = partition_health partitioned w.health;
      consecutive_beats = if partitioned then pos 0 else w.consecutive_beats;
      updated_at = some now;
    } in
    (w', put r p w')

unfoldable pub drain : ℤ → ℤ → String → Registry → Result Error (Worker × Registry)
unfolding find_worker set_drain
drain now stored_at k r = with_worker k r λ p w.
    let w' = record w { state = draining; schedulable = false; updated_at = some now } in
    (w', record (put r p w') { repo = kept r.repo (set_drain stored_at w.worker_key true r.repo) })

unfoldable pub undrain : ℤ → ℤ → String → Registry → Result Error (Worker × Registry)
unfolding find_worker set_drain
undrain now stored_at k r = with_worker k r λ p w.
    let w' = record w { state = ready; schedulable = true; updated_at = some now } in
    (w', record (put r p w') { repo = kept r.repo (set_drain stored_at w.worker_key false r.repo) })

unfoldable pub get : String → Registry → Option Worker
unfolding find_worker
get k r = deref r.cache (find_worker k r.cache)

-- List, in the order of the `range` loop.
unfoldable pub list_workers : Registry → List Worker
list_workers r = values r.cache r.cache.workers

unfoldable pub list_build_workers : Registry → List Worker
unfolding list_workers is_build_worker
list_build_workers r = filter is_build_worker (list_workers r)

unfoldable pub list_runtime_workers : Registry → List Worker
unfolding list_workers is_runtime_worker
list_runtime_workers r = filter is_runtime_worker (list_workers r)

-- UpdateWorkload: an unknown worker is passed over.
abbrev pub or_unchanged : Registry → Result Error Registry → Registry
or_unchanged r (ok r') = r'
or_unchanged r (err e) = r

unfoldable pub update_workload : String → ℤ → Registry → Registry
unfolding find_worker adjust
update_workload k delta r = or_unchanged r (
    with_worker k r
      λ p w. put r p (record w { active_workloads = adjust w.active_workloads delta }))
