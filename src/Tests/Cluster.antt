-- ===== src/Tests/Cluster.antt =====
-- Workers, their health and their registry.
use almichot_cloud.Prelude.{
  pos, ◌≡◌, ◌↔◌, ◌≤ℤ◌, refl, true, false, none, some, ◌∷◌, [], In, here, arith, int_add, int_div,
  time_sub, wrap, lookup, insert,
}
use almichot_cloud.Workers.Model.{Worker, healthy, unhealthy, draining}
use almichot_cloud.Workers.Health.{
  default_health_config, evaluate_health_transition, apply_heartbeat_success, effective_interval,
}
use almichot_cloud.Workers.Health.Timeout.{unhealthy_iff_silence}
use almichot_cloud.Workers.Health.Healing.{after_beats, after_beats-health}
use almichot_cloud.Workers.Repository.{empty_table, upsert, enter, link, list}
use almichot_cloud.Workers.Repository.Tables.{IsSound}
use almichot_cloud.Workers.Registry.{Registry, new_registry, list_workers}
use almichot_cloud.Workers.Registration.{register, registered}
use almichot_cloud.Workers.Steps.{join, Reach, start, next, Reach-IsSound}
use almichot_cloud.Workers.Access.{register-keep_mark}
use almichot_cloud.Heartbeat.{
  Cluster, Clock, HealthTransition, check_all, verdict, check_workers, transition_of,
}
use almichot_cloud.Heartbeat.Silence.{check_workers_complete}
use almichot_cloud.Tests.Data.{params, worker, registry_of}

unhealthy_iff_silence_example :
    ((evaluate_health_transition healthy (pos 3000000000) default_health_config).0 ≡ unhealthy)
    ↔ (pos 3000000000 ≤ℤ pos 3000000000)
unhealthy_iff_silence_example =
    unhealthy_iff_silence healthy (pos 3000000000) 1000000000 3 default_health_config (omega arith)
      (omega arith) refl refl

-- The worker as the monitor leaves it after a long silence.
abbrev silent_worker : Worker
silent_worker = record worker { health = unhealthy; is_partitioned = true }

after_beats-health_example :
    ((after_beats default_health_config 2 silent_worker).health ≡ healthy)
    × ((after_beats default_health_config 2 silent_worker).is_partitioned ≡ false)
after_beats-health_example =
    after_beats-health default_health_config 2 2 silent_worker refl refl refl (omega arith)
      (omega arith)

abbrev marked_worker : Worker
marked_worker = record worker { is_partitioned = true }

joined-Reach : Reach (new_registry empty_table) (registry_of worker)
unfolding new_registry list register registered upsert enter link insert lookup
joined-Reach = next start (join "w1" (pos 5) (pos 6) params (λ e. cc) refl refl)

Reach-IsSound_example : IsSound (registry_of worker).cache
Reach-IsSound_example = Reach-IsSound joined-Reach

abbrev drained_worker : Worker
drained_worker = record worker { state = draining; schedulable = false; updated_at = some (pos 7) }

abbrev drained : Registry
drained = record (registry_of drained_worker) {
  repo = record (registry_of worker).repo {
    heap = record drained_worker { updated_at = some (pos 8) } ∷ [];
  };
}

-- The repository keeps a second record, which its maps now lead to.
abbrev rejoined : Registry
rejoined = record (registry_of marked_worker) {
  repo = record {
    heap = marked_worker ∷ marked_worker ∷ [];
    workers = ("node-1", 1) ∷ [];
    by_id = ("w1", 1) ∷ [];
  };
}

register-keep_mark_example :
    ((after_beats default_health_config 9 marked_worker).health ≡ healthy)
    × ((after_beats default_health_config 9 marked_worker).is_partitioned ≡ true)
unfolding register registered upsert enter link insert lookup
register-keep_mark_example =
    register-keep_mark (registry_of marked_worker) rejoined "w9" (pos 5) (pos 6) params
      marked_worker marked_worker default_health_config 9 refl refl refl

abbrev cluster : Cluster
cluster = record { registry = registry_of worker; services = none }

abbrev late : Clock
late = record {
  tick = pos 4000000005;
  changed_at = pos 4000000006;
  stored_at = pos 4000000007;
  evicted_at = pos 4000000008;
}

abbrev silence : HealthTransition
silence = transition_of late worker (unhealthy, pos 4)

silence-In : In silence (check_workers default_health_config late cluster).0
unfolding check_workers check_all verdict list_workers evaluate_health_transition effective_interval
    int_div time_sub
silence-In = here refl

check_workers_complete_example :
    let v =
      evaluate_health_transition healthy
        (time_sub (pos 4000000005) (pos 5))
        default_health_config in
    In (transition_of late worker v) (check_workers default_health_config late cluster).0
unfolding list_workers evaluate_health_transition effective_interval int_div time_sub
check_workers_complete_example =
    check_workers_complete default_health_config late cluster worker (pos 5) (here refl) refl refl
      refl refl

-- Two heartbeats heal a worker that was silent for too long, one does not.
heals : (after_beats default_health_config 2 silent_worker).health ≡ healthy
unfolding after_beats apply_heartbeat_success int_add wrap
heals = refl

waits : (after_beats default_health_config 1 silent_worker).health ≡ unhealthy
unfolding after_beats apply_heartbeat_success int_add wrap
waits = refl
