-- ===== src/Tests/Placement.antt =====
-- The scheduler and the autoscaler.
use almichot_cloud.Prelude.{
  String, time_sub, ℤ, Result, ◌∷◌, pos, ◌≡◌, ◌≢◌, sym, ◌∙◌, ◌⊎◌, ◌≤ℤ◌, refl, true, false, none,
  some, In, here, there, [], ok, err, arith, length, int_sub, int_div, wrap, lookup,
}
use almichot_cloud.Workers.Model.{
  Worker, is_build_worker, evaluate_schedulability, capability, available_capacity, unreachable,
}
use almichot_cloud.Workers.Registry.{Registry, list_workers, get, set_partitioned, find_worker}
use almichot_cloud.Scheduler.Filter.{feasible, filter_workers, labels_match}
use almichot_cloud.Scheduler.Filter.Schedulability.{partitioned-feasible}
use almichot_cloud.Scheduler.Rank.{instance_count, rank}
use almichot_cloud.Scheduler.Select.{select_worker, no_workers_registered, no_feasible_workers}
use almichot_cloud.Scheduler.Select.Choice.{
  select_worker-least, select_worker-total, select_worker-none,
}
use almichot_cloud.Autoscaler.{calculate_desired_replicas, scale_up, desired_from, up_from}
use almichot_cloud.Autoscaler.{
  ScalingPolicy, MetricType, metric_rps, scale_down, action_none, down_from,
}
use almichot_cloud.Autoscaler.Evaluate.{Autoscaler, evaluate, cooled, recently}
use almichot_cloud.Autoscaler.Evaluate.Cooldown.{evaluate-scale_down}
use almichot_cloud.Autoscaler.Evaluate.Evidence.{HasEvidence, evaluate-HasEvidence}
use almichot_cloud.Deployments.Lifecycle.{running}
use almichot_cloud.Deployments.Repository.{list}
use almichot_cloud.Tests.Data.{deployment}
use almichot_cloud.Autoscaler.Bounds.{IsBounded, calculate_desired_replicas-IsBounded}
use almichot_cloud.Tests.Data.{
  worker, table_of, registry_of, requirement, whole_floats, whole_metrics,
}

worker-feasible : feasible requirement worker ≡ true
unfolding feasible labels_match is_build_worker capability lookup int_sub wrap
worker-feasible = refl

worker-allowed : (evaluate_schedulability worker).allowed ≡ true
unfolding evaluate_schedulability available_capacity int_sub wrap
worker-allowed = refl

-- What SetPartitioned writes.
abbrev cut_worker : Worker
cut_worker = record worker {
  is_partitioned = true;
  health = unreachable;
  updated_at = some (pos 9);
}

abbrev cut_off : Registry
cut_off = record (registry_of worker) { cache = table_of cut_worker }

partitioned-feasible_example :
    (feasible requirement cut_worker ≡ true)
    × ((evaluate_schedulability cut_worker).allowed ≡ false)
unfolding get find_worker set_partitioned lookup
partitioned-feasible_example =
    partitioned-feasible requirement (registry_of worker) cut_off (pos 9) "w1" cut_worker worker
      refl worker-feasible refl

worker-selected : select_worker whole_floats none (registry_of worker) requirement ≡ ok worker
unfolding select_worker list_workers filter_workers rank feasible labels_match is_build_worker
    capability lookup int_sub wrap
worker-selected = refl

worker-In : In worker (list_workers (registry_of worker))
unfolding list_workers
worker-In = here refl

select_worker-least_example :
    In worker (list_workers (registry_of worker))
    × (feasible requirement worker ≡ true)
    × (instance_count [] worker ≤ℤ instance_count [] worker)
select_worker-least_example =
    select_worker-least whole_floats none (registry_of worker) requirement worker worker
      worker-selected worker-In worker-feasible

select_worker-total_example :
    (w : Worker) × (select_worker whole_floats none (registry_of worker) requirement ≡ ok w)
select_worker-total_example =
    select_worker-total whole_floats none (registry_of worker) requirement worker worker-In
      worker-feasible

abbrev busy_worker : Worker
busy_worker = record worker { active_workloads = pos 4 }

busy-feasible :
    (v : Worker) → In v (list_workers (registry_of busy_worker)) → feasible requirement v ≡ false
unfolding list_workers feasible labels_match is_build_worker capability lookup int_sub wrap
busy-feasible v (here e) = rw e refl
busy-feasible v (there i) = elim i [ ]

select_worker-none_example :
    ((list_workers (registry_of busy_worker) ≡ [])
      × (select_worker whole_floats none (registry_of busy_worker) requirement
          ≡ err no_workers_registered))
    ⊎ (select_worker whole_floats none (registry_of busy_worker) requirement
        ≡ err (no_feasible_workers (length (list_workers (registry_of busy_worker)))))
select_worker-none_example =
    select_worker-none whole_floats none (registry_of busy_worker) requirement busy-feasible

calculate_desired_replicas-IsBounded_example :
    IsBounded
      (pos 2)
      (pos 5)
      (pos 3)
      (calculate_desired_replicas whole_metrics (pos 3) (pos 200) (pos 100) (pos 2) (pos 5) (pos 0))
calculate_desired_replicas-IsBounded_example =
    calculate_desired_replicas-IsBounded whole_metrics (pos 3) (pos 200) (pos 100) (pos 2) (pos 5)
      (pos 0) (omega arith) (omega arith) (omega arith)

-- Twice the load asks for six replicas, and five is the ceiling.
capped :
    calculate_desired_replicas whole_metrics (pos 3) (pos 200) (pos 100) (pos 2) (pos 5) (pos 0)
    ≡ (pos 5, scale_up, "metric exceeded target threshold")
unfolding calculate_desired_replicas desired_from up_from int_div int_sub wrap
capped = refl

-- One replica under a floor of three: the corrected branch for scaling up adds one replica and does
-- not look at the floor.
under_floor :
    calculate_desired_replicas whole_metrics (pos 1) (pos 200) (pos 100) (pos 3) (pos 9) (pos 0)
    ≡ (pos 2, scale_up, "metric exceeded target threshold")
unfolding calculate_desired_replicas desired_from up_from int_div int_sub wrap
under_floor = refl

abbrev policy : ScalingPolicy whole_metrics
policy = record {
  project_id = "shop";
  metric_type = metric_rps;
  target_value = pos 100;
  tolerance = pos 0;
  min_replicas = pos 1;
  max_replicas = pos 5;
  scale_up_cooldown = pos 60;
  scale_down_cooldown = pos 180;
}

-- One project that was scaled up at 100, with a deployment that runs `n` replicas.
abbrev scaler : ℤ → Autoscaler whole_metrics
scaler n = record {
  policies = ("shop", policy) ∷ [];
  last_scale_up = ("shop", pos 100) ∷ [];
  last_scale_down = [];
  deployments = ("d1", record (deployment running) { instance_count = n }) ∷ [];
}

abbrev metrics : ℤ → String → MetricType → Result String ℤ
metrics n project t = ok n

abbrev outage : String → MetricType → Result String ℤ
outage project t = err "unavailable"

scales_up :
    (evaluate whole_metrics (pos 200) (pos 200) (metrics (pos 200)) (scaler (pos 2)) "shop").action
    ≡ scale_up
unfolding evaluate cooled recently list calculate_desired_replicas desired_from up_from down_from
    lookup int_div int_sub time_sub wrap
scales_up = refl

scales_down :
    (evaluate whole_metrics (pos 300) (pos 300) (metrics (pos 0)) (scaler (pos 2)) "shop").action
    ≡ scale_down
unfolding evaluate cooled recently list calculate_desired_replicas desired_from up_from down_from
    lookup int_div int_sub time_sub wrap
scales_down = refl

policy-lookup : lookup "shop" (("shop", policy) ∷ []) ≡ some policy
unfolding lookup
policy-lookup = refl

evaluate-scale_down_example :
    (recently (pos 300) (lookup "shop" (scaler (pos 2)).last_scale_down) (pos 180) ≡ false)
    × (recently (pos 300) (lookup "shop" (scaler (pos 2)).last_scale_up) (pos 180) ≡ false)
evaluate-scale_down_example =
    evaluate-scale_down whole_metrics (pos 300) (pos 300) (metrics (pos 0)) (scaler (pos 2)) "shop"
      policy policy-lookup scales_down

evaluate-HasEvidence_example :
    HasEvidence whole_metrics
      (metrics (pos 0))
      (scaler (pos 2))
      "shop"
      (evaluate whole_metrics (pos 300) (pos 300) (metrics (pos 0)) (scaler (pos 2)) "shop")
evaluate-HasEvidence_example =
    evaluate-HasEvidence whole_metrics (pos 300) (pos 300) (metrics (pos 0)) (scaler (pos 2)) "shop"
      (λ e. acts (sym scales_down ∙ e))
  where
    acts : scale_down ≢ action_none
    acts e = cc

-- Thirty nanoseconds after the last change upwards the same load changes nothing.
waits_up :
    (evaluate whole_metrics (pos 130) (pos 130) (metrics (pos 200)) (scaler (pos 2)) "shop").action
    ≡ action_none
unfolding evaluate cooled recently list calculate_desired_replicas desired_from up_from down_from
    lookup int_div int_sub time_sub wrap
waits_up = refl
