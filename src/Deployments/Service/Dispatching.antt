-- ===== src/Deployments/Service/Dispatching.antt =====
-- internal/deployments/service.go, scheduleAndDispatchInstances: the instances of a deployment are
-- created, placed by the scheduler, started on their workers and routed, one after the other.
-- internal/secrets/inject.go: the environment of a container.
use Prim.Native.String.{◌++◌ as text_append}
use almichot_cloud.Prelude.{
  ℤ, pos, pos_part, ℕ, zero, suc, String, ◌&&◌, Option, none, some, List, [], ◌∷◌, ◌++◌, Map,
  insert, length, str_eq, if◌then◌else◌, Result, ok, err, ltb_ℤ, leb_ℤ, eqb_ℤ, decimal, short_id,
  to_lower, contains, to_int32,
}
use almichot_cloud.Workers.Model.{Worker}
use almichot_cloud.Workers.Registry.{update_workload}
use almichot_cloud.Scheduler.Select.{SelectError, select_worker}
use almichot_cloud.Balancer.{Router, register_target}
use almichot_cloud.Deployments.Lifecycle.{
  Deployment, Instance, scheduling, starting, running, failed,
}
use almichot_cloud.Deployments.Instances.{count_by_worker_for_deployment}
use almichot_cloud.Deployments.Instances
use almichot_cloud.Deployments.Service.{
  PortSpec, RunContainerRequest, RunContainerResponse, WorkerClient, Collaborators, ServiceError,
  crashed, scheduler_failed, connect_failed, run_failed, Service, Progress, set_status,
  save_instance, record_event,
}

-- What the dispatch leaves: the instances that it started, and its error.
pub record Dispatched : Type 0 where
  pub progress : Progress
  pub created : List Instance
  pub error : Option ServiceError

-- The container ports: those of the request, else those of the build.
abbrev requested_ports : List PortSpec → List PortSpec
requested_ports [] = []
requested_ports (p ∷ ps) =
    record p { protocol = if str_eq p.protocol "" then "tcp" else p.protocol } ∷ requested_ports ps

abbrev build_ports : List ℤ → List PortSpec
build_ports [] = []
build_ports (n ∷ ns) =
    record { host_port = pos 0; container_port = n; protocol = "tcp" } ∷ build_ports ns

abbrev or_else : List PortSpec → List PortSpec → List PortSpec
or_else [] qs = qs
or_else (p ∷ ps) qs = p ∷ ps

-- A free host port for each container port that has none; the number of draws comes back.
unfoldable pub assign_ports : (ℕ → ℤ) → List PortSpec → ℕ → List PortSpec × ℕ
assign_ports free_port [] n = ([], n)
assign_ports free_port (p ∷ ps) n =
    let drawn = eqb_ℤ p.host_port (pos 0) in
    let (qs, m) = assign_ports free_port ps (if drawn then suc n else n) in
    (record p { host_port = if drawn then free_port n else p.host_port } ∷ qs, m)

unfoldable pub container_ports :
    Collaborators → List PortSpec → List ℤ → Service → List PortSpec × Service
unfolding assign_ports
container_ports c requested built s =
    let (ports, n) =
      assign_ports c.free_port (or_else (requested_ports requested) (build_ports built)) s.draws in
    (ports, record s { draws = n })

-- The ports as they stand in a request.
abbrev pub port_mappings : List PortSpec → List PortSpec
port_mappings [] = []
port_mappings (p ∷ ps) =
    record p { host_port = to_int32 p.host_port; container_port = to_int32 p.container_port }
    ∷ port_mappings ps

abbrev pub insert_all : Map String → Map String → Map String
insert_all [] m = m
insert_all ((k, v) ∷ more) m = insert_all more (insert k v m)

-- InjectSecrets: the secrets of the deployment over the environment.
abbrev injected : Map String → Result String (Map String) → Map String
injected base (ok secrets) = insert_all secrets base
injected base (err e) = base

unfoldable pub runtime_env : Collaborators → Deployment → Map String
runtime_env c dep = with_store c.secrets
  where
    with_store : Option (String → Result String (Map String)) → Map String
    with_store none = dep.env
    with_store (some get) = if str_eq dep.id "" then dep.env else injected dep.env (get dep.id)

abbrev pub with_label : String → String → Map String → Map String
with_label key value labels = if str_eq value "" then labels else insert key value labels

abbrev pub run_request :
    Collaborators → List PortSpec → Map String → Instance → Deployment → RunContainerRequest
run_request c ports labels x dep = record {
  instance_id = x.instance_key;
  deployment_id = dep.id;
  image = dep.image;
  env = runtime_env c dep;
  labels = labels;
  ports = port_mappings ports;
}

-- A fresh instance record in state PENDING.
unfoldable pub new_instance : Collaborators → String → String → Service → Instance × Service
new_instance c deployment_id key s =
    let (x, t) =
      Instances.create c.now
        (record {
          id = c.uuid s.draws;
          deployment_id = deployment_id;
          worker_id = "";
          instance_key = key;
          status = "PENDING";
          container_id = "";
          created_at = none;
          updated_at = none;
        })
        s.instances in
    (x, record s { instances = t; draws = suc s.draws })

-- The scheduler's choice for one more instance of the deployment.
unfoldable pub place : Collaborators → Deployment → Service → Result SelectError Worker
place c dep s =
    select_worker c.floats (some (λ id. some (count_by_worker_for_deployment id s.instances)))
      s.registry
      (record { deployment_id = dep.id; required_capacity = pos 1; required_labels = dep.labels })

-- The instance and the deployment fail.
unfoldable pub fail_start :
    Collaborators
    → Instance
    → String
    → ServiceError
    → Progress
    → Progress × Result ServiceError Instance
unfolding set_status save_instance
fail_start c x stage e p =
    let saved = save_instance c.now (record x { status = "FAILED" }) p.svc in
    (set_status c.now failed stage (record p { svc = saved.1 }), err e)

-- The stage that an error of RunContainer leads to.
unfoldable pub fail_stage : String → String
unfolding to_lower
fail_stage message =
    if contains (to_lower message) "registry" && contains (to_lower message) "unavailable"
    then "REGISTRY_UNAVAILABLE"
    else "FAILED"

abbrev pub or_router : Router → Option Router → Router
or_router r none = r
or_router r (some r') = r'

-- RegisterTarget for an instance; nothing is routed for the empty project.
unfoldable pub route_to : Collaborators → String → String → String → String → ℤ → Service → Service
route_to c project instance_id ip local_host port s =
    let host = if str_eq ip "" then local_host else ip in
    let url = text_append "http://" (text_append host (text_append ":" (decimal port))) in
    if str_eq project "" then s else record s {
      router = or_router s.router (register_target c.parse project instance_id url s.router);
    }

abbrev pub app_port : List PortSpec → ℤ
app_port [] = pos 8080
app_port (p ∷ ps) = if ltb_ℤ (pos 0) p.host_port then p.host_port else pos 8080

-- The container runs: the instance is saved and routed, and its worker is charged.
unfoldable pub started :
    Collaborators → Instance → Worker → String → String → String → ℤ → Service → Instance × Service
unfolding save_instance route_to
started c x w container_id project local_host port s =
    let (x', s') =
      save_instance c.now
        (record x { worker_id = w.id; container_id = container_id; status = "RUNNING" }) s in
    let s'' = route_to c project x'.id w.ip_address local_host port s' in
    (x', record s'' { registry = update_workload w.worker_key (pos 1) s''.registry })

-- The answer of the worker.
abbrev pub run_error : Result String RunContainerResponse → Option String
run_error (err e) = some e
run_error (ok r) = if str_eq r.error "" then none else some r.error

abbrev pub container_of : Result String RunContainerResponse → String
container_of (err e) = ""
container_of (ok r) = r.container_id

abbrev pub after_run :
    Collaborators
    → List PortSpec
    → Instance
    → Worker
    → String
    → Option String
    → Progress
    → Progress × Result ServiceError Instance
after_run c ports x w container_id (some message) p =
    fail_start c x (fail_stage message) (run_failed message) p
after_run c ports x w container_id none p =
    let (x', s) = started c x w container_id p.dep.project_id "localhost" (app_port ports) p.svc in
    (record p { svc = s }, ok x')

abbrev pub log_run : Worker → RunContainerRequest → Service → Service
log_run w req s = record s {
  dispatched = s.dispatched ++ record { worker_key = w.worker_key; request = req } ∷ [];
}

abbrev pub run_on :
    Collaborators
    → List PortSpec
    → Map String
    → Instance
    → Worker
    → Result String WorkerClient
    → Progress
    → Progress × Result ServiceError Instance
run_on c ports labels x w (err e) p = fail_start c x "FAILED" (connect_failed w.worker_key e) p
run_on c ports labels x w (ok client) p =
    let req = run_request c ports labels x p.dep in
    let answer = client.run_container req in
    after_run c ports x w (container_of answer) (run_error answer)
      (record p { svc = log_run w req p.svc })

abbrev pub start_on :
    Collaborators
    → List PortSpec
    → Map String
    → Instance
    → Result SelectError Worker
    → Progress
    → Progress × Result ServiceError Instance
start_on c ports labels x (err e) p =
    fail_start c x "SCHEDULING_FAILED" (scheduler_failed x.instance_key e) p
start_on c ports labels x (ok w) p = run_on c ports labels x w (c.client w) p

abbrev pub start_under :
    Collaborators
    → List PortSpec
    → Map String
    → Instance × Service
    → Progress
    → Progress × Result ServiceError Instance
start_under c ports labels (x, s) p =
    start_on c ports labels x (place c p.dep s) (record p { svc = s })

abbrev pub instance_key : String → ℕ → String
instance_key id i =
    text_append "inst-" (text_append (short_id id) (text_append "-" (decimal (pos i))))

-- One round of the loop.
unfoldable pub start_instance :
    Collaborators
    → List PortSpec
    → Map String
    → ℕ
    → Progress
    → Progress × Result ServiceError Instance
unfolding new_instance place fail_start started
start_instance c ports labels i p =
    start_under c ports labels (new_instance c p.dep.id (instance_key p.dep.id i) p.svc) p

-- The loop goes on with the rest after an instance that started, and ends at an error.
abbrev pub next_round :
    List Instance
    → (Instance → Progress → Dispatched)
    → Progress × Result ServiceError Instance
    → Dispatched
next_round created rest (p, err e) = record { progress = p; created = created; error = some e }
next_round created rest (p, ok x) = rest x p

unfoldable pub start_instances :
    Collaborators → List PortSpec → Map String → ℕ → ℕ → List Instance → Progress → Dispatched
unfolding start_instance
start_instances c ports labels zero i created p = record {
  progress = p;
  created = created;
  error = none;
}
start_instances c ports labels (suc rounds) i created p =
    next_round created (λ x q. start_instances c ports labels rounds (suc i) (created ++ x ∷ []) q)
      (start_instance c ports labels i p)

-- The crash hook at a stage: its error ends the operation.
abbrev pub unless_crashed : Option String → Progress → List Instance → Dispatched → Dispatched
unless_crashed (some e) p created rest = record {
  progress = p;
  created = created;
  error = some (crashed e);
}
unless_crashed none p created rest = rest

abbrev pub running_message : String → ℕ → String
running_message id n = text_append "Deployment " (
    text_append (short_id id)
      (text_append " converged to RUNNING with " (text_append (decimal (pos n)) " instances")))

-- The end of the dispatch: when every instance runs, so does the deployment.
unfoldable pub finish : Collaborators → Progress → List Instance → Option ServiceError → Dispatched
unfolding set_status record_event
finish c p created (some e) = record { progress = p; created = created; error = some e }
finish c p created none =
    let q = set_status c.now running "RUNNING" p in
    let s =
      record_event c q.dep.project_id q.dep.id "DEPLOYMENT_RUNNING"
        (running_message q.dep.id (length created)) none q.svc in
    let r : Progress = record q { svc = s } in
    unless_crashed (c.crash_hook running) r created
      (record { progress = r; created = created; error = none })

abbrev pub finished : Collaborators → Dispatched → Dispatched
finished c d = finish c d.progress d.created d.error

-- The number of instances to run.
abbrev pub instance_count : ℤ → ℤ
instance_count n = if leb_ℤ n (pos 0) then pos 1 else n

unfoldable pub schedule_and_dispatch_instances :
    Collaborators → List PortSpec → List ℤ → String → String → Progress → Dispatched
unfolding set_status container_ports start_instances finish
schedule_and_dispatch_instances c requested built digest signature p =
    let p1 = set_status c.now scheduling "SCHEDULING" p in
    let (ports, s) = container_ports c requested built p1.svc in
    let p2 = set_status c.now starting "STARTING" (record p1 { svc = s }) in
    let labels =
      with_label "nebula.signature" signature
        (with_label "nebula.image_digest" digest p.dep.labels) in
    unless_crashed (c.crash_hook scheduling) p1 [] (
      unless_crashed (c.crash_hook starting) p2 [] (
        finished c (
          start_instances c ports labels (pos_part (instance_count p.dep.instance_count)) 0 [] p2)))
