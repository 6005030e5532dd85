-- ===== src/Heartbeat.antt =====
-- internal/heartbeat/timeout_monitor.go: CheckWorkers, which drives the health of the workers from
-- the silence since their last heartbeat. The service registry is none where it is not set. The
-- ticker that calls it again and again is not modelled.
pub mod Silence
use almichot_cloud.Prelude.{
  ℤ, ℕ, String, Bool, true, false, not, ◌&&◌, ◌||◌, Option, none, some, List, [], ◌∷◌,
  if◌then◌else◌, Result, ok, err, time_sub,
}
use almichot_cloud.Workers.Model.{
  Worker, WorkerHealth, unhealthy, health_eq, is_unhealthy, is_unreachable,
}
use almichot_cloud.Workers.Health.{HealthStateMachineConfig, evaluate_health_transition}
use almichot_cloud.Workers.Repository.{Error}
use almichot_cloud.Workers.Registry.{Registry, list_workers, set_health}
use almichot_cloud.Discovery.{ServiceRegistry, evict_worker_endpoints}

pub record HealthTransition : Type 0 where
  pub worker_id : String
  pub worker_key : String
  pub old_health : WorkerHealth
  pub new_health : WorkerHealth
  pub missed_beats : ℤ
  pub timestamp : ℤ

pub record Cluster : Type 0 where
  pub registry : Registry
  pub services : Option ServiceRegistry

-- The clock readings of one pass: the ticker's time, and the times that the registry, the
-- repository and the service registry write.
pub record Clock : Type 0 where
  pub tick : ℤ
  pub changed_at : ℤ
  pub stored_at : ℤ
  pub evicted_at : ℤ

-- The result of SetHealthWithReason is dropped.
abbrev pub or_same : Registry → Result Error (Worker × Registry) → Registry
or_same r (ok (w, r')) = r'
or_same r (err e) = r

abbrev pub evict_both : ℤ → Worker → Option ServiceRegistry → Option ServiceRegistry
evict_both now w none = none
evict_both now w (some s) =
    some (evict_worker_endpoints now w.worker_key (evict_worker_endpoints now w.id s).1).1

-- The change of the health of one listed worker, with its endpoints evicted if it is unhealthy.
unfoldable pub apply_transition : Clock → Worker → WorkerHealth → Cluster → Cluster
unfolding set_health
apply_transition c w h s = record {
  registry = or_same s.registry (set_health c.changed_at c.stored_at w.worker_key h s.registry);
  services = if is_unhealthy h then evict_both c.evicted_at w s.services else s.services;
}

abbrev pub transition_of : Clock → Worker → WorkerHealth × ℤ → HealthTransition
transition_of c w (h, missed) = record {
  worker_id = w.id;
  worker_key = w.worker_key;
  old_health = w.health;
  new_health = h;
  missed_beats = missed;
  timestamp = c.tick;
}

-- The verdict on a listed worker, none where the monitor passes it over or finds no change.
abbrev pub changed : Worker → WorkerHealth × ℤ → Option (WorkerHealth × ℤ)
changed w (h, missed) = if health_eq h w.health then none else some (h, missed)

abbrev pub verdict_since :
    HealthStateMachineConfig → ℤ → Worker → Option ℤ → Option (WorkerHealth × ℤ)
verdict_since cfg now w none = none
verdict_since cfg now w (some last) =
    changed w (evaluate_health_transition w.health (time_sub now last) cfg)

unfoldable pub verdict : HealthStateMachineConfig → ℤ → Worker → Option (WorkerHealth × ℤ)
verdict cfg now w =
    if w.is_partitioned || is_unreachable w.health
    then none
    else verdict_since cfg now w w.last_beat_at

-- The loop over the listed workers.
unfoldable pub check_all :
    HealthStateMachineConfig → Clock → List Worker → Cluster → List HealthTransition × Cluster
unfolding verdict apply_transition
check_all cfg c [] s = ([], s)
check_all cfg c (w ∷ ws) s = elim (verdict cfg c.tick w) [
  | none ↦ check_all cfg c ws s
  | some v ↦
      let (more, s') = check_all cfg c ws (apply_transition c w v.0 s) in
      (transition_of c w v ∷ more, s')
]

-- CheckWorkers: the list is a snapshot taken before the loop.
unfoldable pub check_workers :
    HealthStateMachineConfig → Clock → Cluster → List HealthTransition × Cluster
unfolding check_all list_workers
check_workers cfg c s = check_all cfg c (list_workers s.registry) s
