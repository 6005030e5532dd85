-- ===== src/Deployments/Service/Scaling.antt =====
-- internal/deployments/service.go: ScaleDeployment and ScaleProject. Two reads of the deployment,
-- before and under the lock, find the same record here.
use Prim.Native.String.{◌++◌ as text_append}
use almichot_cloud.Prelude.{
  ℤ, pos, negsuc, pos_part, ℕ, zero, suc, ◌-◌, ◌%◌, String, Bool, not, ◌&&◌, Option, none, some,
  List, [], ◌∷◌, ◌++◌, filter, length, str_eq, if◌then◌else◌, Result, ok, err, leb_ℤ, ltb, eqb,
  decimal, short_id,
}
use almichot_cloud.Workers.Model.{Worker}
use almichot_cloud.Workers.Registry.{update_workload}
use almichot_cloud.Workers.Registry
use almichot_cloud.Scheduler.Select.{SelectError}
use almichot_cloud.Deployments.Lifecycle.{Deployment, Instance, running, status_eq}
use almichot_cloud.Deployments.Repository.{update_scale, list}
use almichot_cloud.Deployments.Repository
use almichot_cloud.Deployments.Instances.{list_by_deployment}
use almichot_cloud.Deployments.Events.{number, time}
use almichot_cloud.Deployments.Service.{
  PortSpec, WorkerClient, Collaborators, ServiceError, scheduler_failed, connect_failed, run_failed,
  repository_error, bad_target, not_running, no_running_deployment, Service, Answer, refused,
  or_same, save_instance, record_event,
}
use almichot_cloud.Deployments.Service.Dispatching.{
  new_instance, place, with_label, run_request, run_error, container_of, log_run, started,
}
use almichot_cloud.Deployments.Service.Stopping.{send_stop, unroute}

abbrev pub is_active : Instance → Bool
is_active x = not (str_eq x.status "STOPPED") && not (str_eq x.status "FAILED")

-- The state after one more replica, or the error that ended the loop.
abbrev pub Added : Type 0
Added = Service × Result ServiceError Instance

unfoldable pub fail_replica : Collaborators → Instance → ServiceError → Service → Added
unfolding save_instance
fail_replica c x e s = ((save_instance c.now (record x { status = "FAILED" }) s).1, err e)

abbrev pub replica_ports : ℤ → List PortSpec
replica_ports port = record { host_port = port; container_port = pos 8080; protocol = "tcp" } ∷ []

abbrev pub replica_ran :
    Collaborators → Deployment → Instance → Worker → ℤ → String → Option String → Service → Added
replica_ran c dep x w port container_id (some message) s = fail_replica c x (run_failed message) s
replica_ran c dep x w port container_id none s =
    let (x', s') = started c x w container_id dep.project_id "127.0.0.1" port s in (s', ok x')

abbrev pub run_replica :
    Collaborators → Deployment → Instance → Worker → Result String WorkerClient → Service → Added
run_replica c dep x w (err e) s = fail_replica c x (connect_failed w.worker_key e) s
run_replica c dep x w (ok client) s =
    let port = c.free_port s.draws in
    let labels = with_label "nebula.image_digest" dep.image_digest dep.labels in
    let req = run_request c (replica_ports port) labels x dep in
    let answer = client.run_container req in
    replica_ran c dep x w port (container_of answer) (run_error answer)
      (log_run w req (record s { draws = suc s.draws }))

abbrev pub place_replica :
    Collaborators → Deployment → Instance → Result SelectError Worker → Service → Added
place_replica c dep x (err e) s = fail_replica c x (scheduler_failed x.instance_key e) s
place_replica c dep x (ok w) s = run_replica c dep x w (c.client w) s

-- time.Now().UnixNano() % 10000, at a time after 1970.
abbrev key_suffix : ℤ → ℤ
key_suffix now = pos (pos_part now % 10000)

abbrev pub replica_key : ℤ → String → ℕ → String
replica_key now id index = text_append "inst-" (
    text_append (short_id id) (
      text_append "-"
        (text_append (decimal (pos index)) (text_append "-" (decimal (key_suffix now))))))

-- One round of the scale-up loop.
unfoldable pub add_replica : Collaborators → Deployment → ℕ → Service → Added
unfolding new_instance place fail_replica started
add_replica c dep index s =
    let (x, s') = new_instance c dep.id (replica_key c.now dep.id index) s in
    place_replica c dep x (place c dep s') s'

-- What a scaling has left: the active instances, and its error.
pub record Scaled : Type 0 where
  pub svc : Service
  pub active : List Instance
  pub error : Option ServiceError

abbrev pub next_replica : List Instance → (Instance → Service → Scaled) → Added → Scaled
next_replica active rest (s, err e) = record { svc = s; active = active; error = some e }
next_replica active rest (s, ok x) = rest x s

-- `index` is the number of instances that were active before the loop, and the round.
unfoldable pub scale_up : Collaborators → Deployment → ℕ → ℕ → List Instance → Service → Scaled
unfolding add_replica
scale_up c dep zero index active s = record { svc = s; active = active; error = none }
scale_up c dep (suc delta) index active s =
    next_replica active (λ x t. scale_up c dep delta (suc index) (active ++ x ∷ []) t)
      (add_replica c dep index s)

abbrev pub discharge : Option Worker → Service → Service
discharge none s = s
discharge (some w) s = record s { registry = update_workload w.worker_key (negsuc 0) s.registry }

-- StopContainer on the instance's worker, whose load goes down, reachable or not.
unfoldable pub release_worker : Collaborators → Instance → Service → Service
unfolding send_stop
release_worker c x s =
    if str_eq x.worker_id ""
    then s
    else discharge (Registry.get x.worker_id s.registry) (send_stop c x s)

-- The body of the scale-down loop.
unfoldable pub remove_replica : Collaborators → String → Instance → Service → Service
unfolding unroute release_worker save_instance
remove_replica c project x s =
    (save_instance c.now (record x { status = "STOPPED" })
      (release_worker c x (unroute project x.id s))).1

unfoldable pub remove_replicas : Collaborators → String → List Instance → Service → Service
unfolding remove_replica
remove_replicas c project [] s = s
remove_replicas c project (x ∷ xs) s = remove_replicas c project xs (remove_replica c project x s)

abbrev pub take {ℓ} : {A : Type ℓ} → ℕ → List A → List A
take n [] = []
take zero (x ∷ xs) = []
take (suc n) (x ∷ xs) = x ∷ take n xs

abbrev pub drop {ℓ} : {A : Type ℓ} → ℕ → List A → List A
drop n [] = []
drop zero (x ∷ xs) = x ∷ xs
drop (suc n) (x ∷ xs) = drop n xs

-- The loops, from the active instances on; the first `target` of them stay.
unfoldable pub adjust_replicas : Collaborators → Deployment → ℕ → List Instance → Service → Scaled
unfolding scale_up remove_replicas
adjust_replicas c dep target active s =
    if ltb (length active) target
    then scale_up c dep (target - length active) (length active) active s
    else record {
      svc = remove_replicas c dep.project_id (drop target active) s;
      active = take target active;
      error = none;
    }

-- dep.InstanceCount, dep.DesiredReplicas, and UpdateScale; a failure of the write is only logged.
abbrev pub resized : ℤ → Deployment → Deployment
resized target d = record d { instance_count = target; desired_replicas = target }

unfoldable pub set_scale : Collaborators → Deployment → ℤ → Service → Service
set_scale c dep target s = record s {
  deployments = or_same s.deployments (update_scale c.now dep.id target s.deployments);
}

abbrev scale_message : String → ℕ → ℤ → String
scale_message id current target = text_append "Scaled deployment " (
    text_append id (
      text_append " from " (
        text_append (decimal (pos current))
          (text_append " to " (text_append (decimal target) " replicas")))))

unfoldable pub finish_scaling :
    Collaborators
    → Deployment
    → ℤ
    → ℕ
    → Service
    → List Instance
    → Option ServiceError
    → Answer × Service
unfolding set_scale record_event
finish_scaling c dep target current s active (some e) =
    (record { dep = some dep; instances = active; error = some e }, s)
finish_scaling c dep target current s active none = (
  record { dep = some (resized target dep); instances = active; error = none },
  record_event c dep.project_id dep.id
      (if ltb current (pos_part target) then "SCALE_UP" else "SCALE_DOWN")
      (scale_message dep.id current target)
      (some (
        ("previous_replicas", number (pos current))
        ∷ ("desired_replicas", number target)
        ∷ ("timestamp", time c.now)
        ∷ []))
      (set_scale c dep target s),
)

unfoldable pub scale_active :
    Collaborators → Deployment → ℤ → List Instance → Service → Answer × Service
unfolding adjust_replicas finish_scaling set_scale
scale_active c dep target active s =
    if eqb (length active) (pos_part target)
    then (
      record { dep = some (resized target dep); instances = active; error = none },
      set_scale c dep target s,
    )
    else (let r = adjust_replicas c dep (pos_part target) active s in
        finish_scaling c dep target (length active) r.svc r.active r.error)

abbrev pub scale_found :
    Collaborators → String → ℤ → Service → Result Repository.Error Deployment → Answer × Service
scale_found c id target s (err e) = (refused (repository_error e), s)
scale_found c id target s (ok dep) =
    if not (status_eq dep.status running)
    then (refused (not_running id dep.status), s)
    else scale_active c dep target (filter is_active (list_by_deployment id s.instances)) s

unfoldable pub scale_deployment : Collaborators → String → ℤ → Service → Answer × Service
unfolding scale_active
scale_deployment c id target s =
    if leb_ℤ target (pos 0)
    then (refused (bad_target target), s)
    else scale_found c id target s (Repository.get_by_id id s.deployments)

-- The first running deployment of a project.
unfoldable pub running_deployment : List Deployment → Option Deployment
running_deployment [] = none
running_deployment (d ∷ ds) =
    let rest = running_deployment ds in if status_eq d.status running then some d else rest

unfoldable pub scale_project : Collaborators → String → ℤ → Service → Answer × Service
unfolding running_deployment scale_deployment
scale_project c project target s = elim (running_deployment (list project s.deployments)) [
  | none ↦ (refused no_running_deployment, s)
  | some d ↦ scale_deployment c d.id target s
]
