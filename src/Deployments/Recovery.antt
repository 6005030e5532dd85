-- ===== src/Deployments/Recovery.antt =====
-- internal/deployments/recovery.go: what the control plane does at its start with the deployments
-- that a crash left in flight. The worker clients are parameters; the StopContainer requests sent
-- are part of the state. The policy argument is only logged by the source and is left out.
pub mod Failsafe
pub mod Cleanup
use Prim.Native.String.{◌++◌ as text_append}
use almichot_cloud.Prelude.{
  ℤ, pos, ℕ, String, Bool, true, false, not, ◌&&◌, Option, none, some, List, [], ◌∷◌, ◌++◌, Map,
  lookup, str_eq, if◌then◌else◌, filter, length, Result, ok, err, int_add,
}
use almichot_cloud.Workers.Model.{Worker, is_healthy}
use almichot_cloud.Workers.Registry.{Registry, list_workers}
use almichot_cloud.Deployments.Lifecycle.{
  Deployment, Instance, DeploymentStatus, queued, building, built, scheduling, starting, failed,
  is_in_flight,
}
use almichot_cloud.Deployments.Repository.{
  Error, deployment_not_found, instance_not_found, Deployments, list, update_status, update_image,
}
use almichot_cloud.Deployments.Instances.{Instances, list_by_deployment, update}

-- What ListContainers reports of a container; `labels = none` is the nil map.
pub record Container : Type 0 where
  pub container_id : String
  pub instance_id : String
  pub labels : Option (Map String)

-- The answers of one worker: `list_containers` is `(resp, err)`, with `none` for a nil response;
-- `stop_container` is the error, `none` for nil.
pub record WorkerClient : Type 0 where
  pub list_containers : Result String (Option (List Container))
  pub stop_container : String → ℤ → Option String

-- A StopContainer request and the worker that it went to.
pub record Stop : Type 0 where
  pub worker_key : String
  pub instance_id : String

pub record RecoveryReport : Type 0 where
  pub total_stuck_detected : ℕ
  pub queued_recovered : ℤ
  pub building_recovered : ℤ
  pub scheduling_recovered : ℤ
  pub starting_recovered : ℤ
  pub orphan_containers_stopped : ℤ
  pub errors : List String

pub record RecoveryEngine : Type 0 where
  pub dep_repo : Deployments
  pub inst_repo : Instances
  pub registry : Option Registry
  pub client_factory : Option (Worker → Result String WorkerClient)

-- What a recovery changes.
pub record Recovering : Type 0 where
  pub deployments : Deployments
  pub instances : Instances
  pub report : RecoveryReport
  pub stops : List Stop

abbrev pub has_deployment : String → Option (Map String) → Bool
has_deployment deployment_id none = false
has_deployment deployment_id (some m) = value (lookup "nebula.deployment_id" m)
  where
    value : Option String → Bool
    value none = str_eq "" deployment_id
    value (some d) = str_eq d deployment_id

abbrev counted : Option String → ℤ → ℤ
counted none n = int_add n (pos 1)
counted (some e) n = n

-- The loop over the containers of one worker: the count so far, and the requests sent.
unfoldable pub stop_partial :
    String → String → WorkerClient → List Container → ℤ × List Stop → ℤ × List Stop
stop_partial deployment_id worker_key client [] (n, sent) = (n, sent)
stop_partial deployment_id worker_key client (c ∷ cs) (n, sent) =
    stop_partial deployment_id worker_key client cs (
      if has_deployment deployment_id c.labels
      then (
        counted (client.stop_container c.instance_id (pos 5)) n,
        sent ++ record { worker_key = worker_key; instance_id = c.instance_id } ∷ [],
      )
      else (n, sent))

abbrev pub stop_listed :
    String
    → Worker
    → WorkerClient
    → Result String (Option (List Container))
    → ℤ × List Stop
    → ℤ × List Stop
stop_listed deployment_id w client (ok (some cs)) acc =
    stop_partial deployment_id w.worker_key client cs acc
stop_listed deployment_id w client resp acc = acc

abbrev pub stop_at : String → Worker → Result String WorkerClient → ℤ × List Stop → ℤ × List Stop
stop_at deployment_id w (ok client) acc =
    stop_listed deployment_id w client client.list_containers acc
stop_at deployment_id w (err e) acc = acc

unfoldable pub stop_everywhere :
    String → (Worker → Result String WorkerClient) → List Worker → ℤ × List Stop → ℤ × List Stop
unfolding stop_partial
stop_everywhere deployment_id factory [] acc = acc
stop_everywhere deployment_id factory (w ∷ ws) acc =
    stop_everywhere deployment_id factory ws
      (if is_healthy w.health then stop_at deployment_id w (factory w) acc else acc)

-- The number of containers stopped, and every request sent, failed ones too.
unfoldable pub cleanup_partial_containers :
    String → Option Registry → Option (Worker → Result String WorkerClient) → ℤ × List Stop
unfolding stop_everywhere
cleanup_partial_containers deployment_id (some r) (some factory) =
    stop_everywhere deployment_id factory (list_workers r) (pos 0, [])
cleanup_partial_containers deployment_id registry factory = (pos 0, [])

unfoldable pub detect_stuck_deployments : Deployments → List Deployment
detect_stuck_deployments m = filter (λ d. is_in_flight d.status) (list "" m)

abbrev updated : Instances → Result Error (Instance × Instances) → Instances
updated t (ok (x, t')) = t'
updated t (err e) = t

-- The loop that fails the instances of a deployment, all of them or those that are PENDING.
unfoldable pub fail_instances : ℤ → Bool → List Instance → Instances → Instances
fail_instances now only_pending [] t = t
fail_instances now only_pending (x ∷ xs) t = fail_instances now only_pending xs (
    if only_pending && not (str_eq x.status "PENDING")
    then t
    else updated t (update now (record x { status = "FAILED" }) t))

abbrev error_text : Error → String
error_text deployment_not_found = "deployment not found"
error_text instance_not_found = "instance not found"

abbrev complaint : Deployment → String → Error → String
complaint d stage e = text_append "dep " (text_append d.id (text_append stage (error_text e)))

-- UpdateStatus to FAILED: on success the report counts it, on an error the report says so.
abbrev pub concluded :
    Deployment
    → String
    → (RecoveryReport → RecoveryReport)
    → Recovering
    → Result Error Deployments
    → Recovering
concluded d stage count s (ok m) = record s { deployments = m; report = count s.report }
concluded d stage count s (err e) = record s {
  report = record s.report { errors = s.report.errors ++ complaint d stage e ∷ [] };
}

abbrev pub or_old : Deployments → Result Error Deployments → Deployments
or_old m (ok m') = m'
or_old m (err e) = m

abbrev pub fail : ℤ → Deployment → String → Deployments → Result Error Deployments
fail now d stage m = update_status now d.id failed stage m

abbrev pub count_queued : RecoveryReport → RecoveryReport
count_queued r = record r { queued_recovered = int_add r.queued_recovered (pos 1) }

abbrev pub count_building : RecoveryReport → RecoveryReport
count_building r = record r { building_recovered = int_add r.building_recovered (pos 1) }

abbrev pub count_scheduling : RecoveryReport → RecoveryReport
count_scheduling r = record r { scheduling_recovered = int_add r.scheduling_recovered (pos 1) }

abbrev pub count_starting : RecoveryReport → RecoveryReport
count_starting r = record r { starting_recovered = int_add r.starting_recovered (pos 1) }

-- The case of BUILT and SCHEDULING: the pending instances fail before the deployment does.
abbrev pub scheduling_failed : ℤ → Deployment → Recovering → Recovering
scheduling_failed now d s = record s {
  instances = fail_instances now true (list_by_deployment d.id s.instances) s.instances;
}

abbrev recover_scheduling : ℤ → Deployment → Recovering → Recovering
recover_scheduling now d s =
    concluded d " (SCHEDULING): " count_scheduling (scheduling_failed now d s)
      (fail now d "SCHEDULING_INTERRUPTED_CP_CRASH" s.deployments)

-- The case of STARTING: its containers are stopped and its instances fail first.
abbrev pub starting_failed : ℤ → RecoveryEngine → Deployment → Recovering → Recovering
starting_failed now e d s =
    let (stopped_count, sent) = cleanup_partial_containers d.id e.registry e.client_factory in
    record s {
      instances = fail_instances now false (list_by_deployment d.id s.instances) s.instances;
      report = record s.report {
        orphan_containers_stopped = int_add s.report.orphan_containers_stopped stopped_count;
      };
      stops = s.stops ++ sent;
    }

-- One stuck deployment, by the status that it was found in.
unfoldable pub recover_one :
    ℤ → RecoveryEngine → Deployment → DeploymentStatus → Recovering → Recovering
recover_one now e d queued s =
    concluded d " (QUEUED): " count_queued s
      (fail now d "QUEUED_INTERRUPTED_CP_CRASH" s.deployments)
recover_one now e d building s =
    let cleared = or_old s.deployments (update_image now d.id "" "" s.deployments) in
    concluded d " (BUILDING): " count_building (record s { deployments = cleared })
      (fail now d "BUILD_INTERRUPTED_CP_CRASH" cleared)
recover_one now e d starting s =
    concluded d " (STARTING): " count_starting (starting_failed now e d s)
      (fail now d "STARTUP_INTERRUPTED_CP_CRASH" s.deployments)
recover_one now e d built s = recover_scheduling now d s
recover_one now e d scheduling s = recover_scheduling now d s
recover_one now e d other s = record s {
  deployments = or_old s.deployments (fail now d "INTERRUPTED_CP_CRASH" s.deployments);
}

unfoldable pub recover_all : ℤ → RecoveryEngine → List Deployment → Recovering → Recovering
unfolding recover_one
recover_all now e [] s = s
recover_all now e (d ∷ ds) s = recover_all now e ds (recover_one now e d d.status s)

-- `List` of the memory repository never fails, so there is always a report.
unfoldable pub recover_deployments : ℤ → RecoveryEngine → Recovering
unfolding detect_stuck_deployments recover_all
recover_deployments now e =
    let stuck = detect_stuck_deployments e.dep_repo in
    recover_all now e stuck (record {
      deployments = e.dep_repo;
      instances = e.inst_repo;
      report = record {
        total_stuck_detected = length stuck;
        queued_recovered = pos 0;
        building_recovered = pos 0;
        scheduling_recovered = pos 0;
        starting_recovered = pos 0;
        orphan_containers_stopped = pos 0;
        errors = [];
      };
      stops = [];
    })
