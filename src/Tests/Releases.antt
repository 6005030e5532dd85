-- ===== src/Tests/Releases.antt =====
-- Deployments, their store and recovery, and the reconciliation with what runs.
use almichot_cloud.Prelude.{
  ◌<ℤ◌, pos, String, ◌≡◌, ◌≢◌, ◌⊎◌, ◌+◌, refl, true, false, none, some, In, here, [], ◌∷◌, ok,
  arith, length, lookup, insert, eq_iff,
}
use almichot_cloud.Workers.Registry.{list_workers}
use almichot_cloud.Deployments.Lifecycle.{
  Deployment, queued, building, scheduling, starting, running, failed, validate_transition,
  legal_transitions, is_in_flight, Instance,
}
use almichot_cloud.Deployments.Lifecycle.Runs.{Run, done, step, visited, Run-antisym, Run-visits}
use almichot_cloud.Deployments.Repository.{Deployments, update_status, update_image, list}
use almichot_cloud.Deployments.Repository.Kept.{IsKeyed, sets_status, Stored-IsKeyed}
use almichot_cloud.Deployments.Instances.{
  Instances, update, get_by_id, get_by_instance_key, no_instances,
}
use almichot_cloud.Deployments.Instances.Shared.{update-get}
use almichot_cloud.Deployments.Recovery.{
  RecoveryEngine, WorkerClient, Container, cleanup_partial_containers, recover_deployments,
  detect_stuck_deployments, recover_all, recover_one,
}
use almichot_cloud.Deployments.Recovery.Failsafe.{recover_deployments-IsLeft}
use almichot_cloud.Deployments.Recovery.Cleanup.{cleanup_partial_containers-In}
use almichot_cloud.Reconcile.Diff.{
  DesiredInstance, ObservedContainer, MatchingPair, compute_diff, index_desired, visit_all, visit,
  is_running_state, instance_key_of,
}
use almichot_cloud.Reconcile.Diff.Counts.{compute_diff-counts}
use almichot_cloud.Reconcile.Diff.Pairs.{IsMatch, compute_diff-IsMatch}
use almichot_cloud.Reconcile.Repair.{
  RunClient, RepairService, run_request, repair_missing, target_worker, assigned_worker,
}
use almichot_cloud.Reconcile.Repair.Bounded.{repair_missing-runs}
use almichot_cloud.Workers.Registry.{get, find_worker}
use almichot_cloud.Tests.Data.{whole_floats}
use almichot_cloud.Reconcile.Orphan.{StopClient, StopRequest, enforce_orphan_policy}
use almichot_cloud.Reconcile.Orphan.Untouched.{HasTrace, IsDone, enforce_orphan_policy-IsHonest}
use almichot_cloud.Tests.Data.{worker, registry_of, deployment, instance_of}

Run-antisym_example : queued ≡ queued
unfolding validate_transition
Run-antisym_example = Run-antisym queued queued (step refl done) done

abbrev placed : Run queued running
unfolding validate_transition legal_transitions
placed = step {t = scheduling} refl (step {t = starting} refl (step {t = running} refl done))

Run-visits_example : In scheduling (visited placed) × In starting (visited placed)
Run-visits_example = Run-visits placed

abbrev before : Deployments
before = ("d1", deployment building) ∷ []

abbrev after : Deployments
after = ("d1", record (deployment starting) { stage = "START"; updated_at = some (pos 9) }) ∷ []

before-IsKeyed : IsKeyed before
unfolding lookup
before-IsKeyed i d h = ground (arith, eq_iff "d1" i)

Stored-IsKeyed_example : IsKeyed after
unfolding update_status lookup insert
Stored-IsKeyed_example =
    Stored-IsKeyed before after (sets_status (pos 9) "d1" starting "START" refl) before-IsKeyed

abbrev stored : Instance → Instances
stored x = record { heap = x ∷ []; instances = ("i1", 0) ∷ []; by_key = ("shop-1", 0) ∷ [] }

abbrev failed_instance : Instance
failed_instance = record (instance_of "FAILED") { updated_at = some (pos 4) }

update-get_example :
    (get_by_id "i1" (stored failed_instance) ≡ ok failed_instance)
    × (get_by_instance_key "shop-1" (stored failed_instance) ≡ ok failed_instance)
unfolding update lookup insert
update-get_example =
    update-get (pos 4) (instance_of "FAILED") failed_instance (stored (instance_of "PENDING"))
      (stored failed_instance) "shop-1" refl refl

abbrev engine : RecoveryEngine
engine = record {
  dep_repo = before;
  inst_repo = no_instances;
  registry = none;
  client_factory = none;
}

abbrev recovered : Deployment
recovered = record (deployment failed) {
  image = "";
  stage = "BUILD_INTERRUPTED_CP_CRASH";
  updated_at = some (pos 9);
}

recovered-lookup : lookup "d1" (recover_deployments (pos 9) engine).deployments ≡ some recovered
unfolding recover_deployments detect_stuck_deployments list recover_all recover_one update_status
    update_image lookup insert is_in_flight
recovered-lookup = refl

recover_deployments-IsLeft_example :
    (recovered.status ≡ failed)
    ⊎ ((lookup "d1" engine.dep_repo ≡ some recovered) × (is_in_flight recovered.status ≡ false))
recover_deployments-IsLeft_example =
    recover_deployments-IsLeft (pos 9) engine "d1" recovered before-IsKeyed recovered-lookup

abbrev container : Container
container = record {
  container_id = "c1";
  instance_id = "shop-1";
  labels = some (("nebula.deployment_id", "d1") ∷ []);
}

abbrev client : WorkerClient
client = record { list_containers = ok (some (container ∷ [])); stop_container = λ i t. none }

cleanup_partial_containers-In_example :
    In
      (record { worker_key = "node-1"; instance_id = "shop-1" })
      (cleanup_partial_containers "d1" (some (registry_of worker)) (some (λ w. ok client))).1
unfolding list_workers lookup
cleanup_partial_containers-In_example =
    cleanup_partial_containers-In "d1" (registry_of worker) (λ w. ok client) worker client
      (container ∷ []) container (here refl) refl refl refl (here refl) refl

abbrev wanted : DesiredInstance
wanted = record {
  instance_id = "i1";
  instance_key = "shop-1";
  deployment_id = "d1";
  worker_id = "w1";
  image = "shop:1";
  env = [];
  labels = [];
  desired_status = "RUNNING";
}

abbrev seen : String → String → ObservedContainer
seen key state = record {
  worker_id = "w1";
  worker_key = "node-1";
  container_id = "c1";
  instance_key = key;
  deployment_id = "";
  image = "shop:1";
  state = state;
  labels = none;
  created_at = pos 1;
}

abbrev pair : MatchingPair
pair = record { desired = wanted; observed = seen "shop-1" "Up 2 hours" }

pair-In :
    In pair
      (compute_diff (wanted ∷ []) (seen "" "running" ∷ seen "shop-1" "Up 2 hours" ∷ [])).matching
unfolding compute_diff index_desired visit_all visit is_running_state instance_key_of lookup insert
pair-In = here refl

compute_diff-IsMatch_example : IsMatch (wanted ∷ []) pair
compute_diff-IsMatch_example =
    compute_diff-IsMatch (wanted ∷ []) (seen "" "running" ∷ seen "shop-1" "Up 2 hours" ∷ []) pair
      pair-In

compute_diff-counts_example :
    let r = compute_diff (wanted ∷ []) (seen "" "running" ∷ seen "shop-1" "Up 2 hours" ∷ []) in
    (length r.matching + length r.extra ≡ 2) × (length r.matching + length r.missing ≡ 1)
compute_diff-counts_example =
    compute_diff-counts (wanted ∷ []) (seen "" "running" ∷ seen "shop-1" "Up 2 hours" ∷ [])

abbrev obedient : StopClient
obedient request = record { resp = some (record { success = true; error = "" }); err = none }

enforce_orphan_policy-IsHonest_example :
    let (decision, requests) = enforce_orphan_policy (seen "shop-1" "running") (some obedient) in
    ((requests ≡ []) × (decision.action_taken ≢ "STOPPED"))
    ⊎ (HasTrace (seen "shop-1" "running")
        × (request : StopRequest) × (requests ≡ request ∷ [])
        × ((((seen "shop-1" "running").instance_key ≢ "") × (request.instance_id ≡ "shop-1"))
            ⊎ (((seen "shop-1" "running").instance_key ≡ "") × (request.instance_id ≡ "c1")))
        × (decision.action_taken ≡ "STOPPED" → IsDone (obedient request)))
enforce_orphan_policy-IsHonest_example =
    enforce_orphan_policy-IsHonest (seen "shop-1" "running") obedient

-- What counts as running.
states :
    (is_running_state "rUnNiNg" ≡ true)
    × (is_running_state "Up 3 minutes" ≡ true)
    × (is_running_state "exited" ≡ false)
unfolding is_running_state
states = (refl, refl, refl)

abbrev run_client : RunClient
run_client request = record { resp = some (record { container_id = "c9"; error = "" }); err = none }

abbrev repairer : RepairService
repairer = record {
  floats = whole_floats;
  counts = none;
  registry = registry_of worker;
  client_factory = λ w. ok run_client;
}

run-In :
    In
      (worker, run_request wanted)
      (repair_missing (pos 7) repairer wanted (pos 0) (pos 1) (stored (instance_of "LOST"))).runs
unfolding repair_missing target_worker assigned_worker get find_worker lookup
run-In = here refl

repair_missing-runs_example :
    (pos 0 <ℤ pos 1)
    × (target_worker repairer wanted ≡ ok worker)
    × ((run_request wanted).instance_id ≡ "shop-1")
    × (lookup "nebula.instance_id" (run_request wanted).labels ≡ some "shop-1")
repair_missing-runs_example =
    repair_missing-runs (pos 7) repairer wanted (pos 0) (pos 1) (stored (instance_of "LOST")) worker
      (run_request wanted) run-In
