-- ===== src/Reconcile/Repair.antt =====
-- internal/reconcile/repair.go: RepairMissing, which recreates a missing instance on a worker. The
-- worker clients are a parameter; the RunContainer requests sent are part of the result. The
-- timeout of the calls is left to the clients. Of an error that the source formats, the text keeps
-- the part before the cause.
pub mod Bounded
use almichot_cloud.Prelude.{
  ℤ, pos, String, Bool, true, false, not, ◌&&◌, Option, none, some, List, [], ◌∷◌, Map, insert,
  str_eq, if◌then◌else◌, Result, ok, err, leb_ℤ,
}
use almichot_cloud.Workers.Model.{Worker, is_healthy, is_draining}
use almichot_cloud.Workers.Registry.{Registry, get}
use almichot_cloud.Scheduler.Filter.{WorkloadRequirement}
use almichot_cloud.Scheduler.Rank.{Floats}
use almichot_cloud.Scheduler.Select.{CountsProvider, SelectError, select_worker}
use almichot_cloud.Deployments.Lifecycle.{Instance}
use almichot_cloud.Deployments.Repository.{Error}
use almichot_cloud.Deployments.Instances.{Instances, get_by_instance_key, update}
use almichot_cloud.Reconcile.Diff.{DesiredInstance}

pub record RunRequest : Type 0 where
  pub instance_id : String
  pub deployment_id : String
  pub image : String
  pub env : Map String
  pub labels : Map String

pub record RunResponse : Type 0 where
  pub container_id : String
  pub error : String

-- What a worker's RunContainer returns: `(resp, err)`, either of which may be nil.
pub record RunReply : Type 0 where
  pub resp : Option RunResponse
  pub err : Option String

abbrev pub RunClient : Type 0
RunClient = RunRequest → RunReply

pub record RepairResult : Type 0 where
  pub instance_key : String
  pub worker_id : String
  pub container_id : String
  pub success : Bool
  pub error : String

-- `returned` is `(result, err)`; `panicked` is the dereference of a nil response.
pub data Outcome : Type 0 where
  returned : RepairResult → Option String → Outcome
  panicked : Outcome

pub record RepairService : Type 1 where
  pub floats : Floats
  pub counts : Option CountsProvider
  pub registry : Registry
  pub client_factory : Worker → Result String RunClient

-- The outcome, the instances afterwards, and each request with the worker that it went to.
pub record Repaired : Type 0 where
  pub outcome : Outcome
  pub instances : Instances
  pub runs : List (Worker × RunRequest)

abbrev failure : DesiredInstance → String → String → RepairResult
failure missing worker_id why = record {
  instance_key = missing.instance_key;
  worker_id = worker_id;
  container_id = "";
  success = false;
  error = why;
}

abbrev usable : Option Worker → Option Worker
usable none = none
usable (some w) = if is_healthy w.health && not (is_draining w.state) then some w else none

-- The worker that the instance was assigned to, if it may stay there.
unfoldable pub assigned_worker : RepairService → DesiredInstance → Option Worker
assigned_worker s missing =
    if str_eq missing.worker_id "" then none else usable (get missing.worker_id s.registry)

abbrev requirement_of : DesiredInstance → WorkloadRequirement
requirement_of missing = record {
  deployment_id = missing.deployment_id;
  required_capacity = pos 1;
  required_labels = missing.labels;
}

unfoldable pub target_worker : RepairService → DesiredInstance → Result SelectError Worker
unfolding assigned_worker
target_worker s missing = elim (assigned_worker s missing) [
  | some w ↦ ok w
  | none ↦ select_worker s.floats s.counts s.registry (requirement_of missing)
]

abbrev pub run_labels : DesiredInstance → Map String
run_labels missing =
    let labels = insert "nebula.instance_id" missing.instance_key missing.labels in
    if str_eq missing.deployment_id ""
    then labels
    else insert "nebula.deployment_id" missing.deployment_id labels

abbrev pub run_request : DesiredInstance → RunRequest
run_request missing = record {
  instance_id = missing.instance_key;
  deployment_id = missing.deployment_id;
  image = missing.image;
  env = missing.env;
  labels = run_labels missing;
}

-- A change of the instance's record, if there is one; an error is only logged.
abbrev updated : Instances → Result Error (Instance × Instances) → Instances
updated t (ok (x, t')) = t'
updated t (err e) = t

abbrev with_instance : ℤ → (Instance → Instance) → Instances → Result Error Instance → Instances
with_instance now f t (err e) = t
with_instance now f t (ok x) = updated t (update now (f x) t)

abbrev run_failed : ℤ → DesiredInstance → Worker → String → Instances → Outcome × Instances
run_failed now missing w why t = (
  returned (failure missing w.id why) (some "recreate container failed"),
  with_instance now (λ x. record x { status = "REPAIR_FAILED" }) t
      (get_by_instance_key missing.instance_key t),
)

abbrev run_succeeded : ℤ → DesiredInstance → Worker → Instances → Instances
run_succeeded now missing w t =
    with_instance now (λ x. record x { worker_id = w.id; status = "RUNNING" }) t
      (get_by_instance_key missing.instance_key t)

-- From the reply of RunContainer on.
abbrev pub conclude :
    ℤ
    → DesiredInstance
    → Worker
    → Instances
    → Option String
    → Option RunResponse
    → Outcome × Instances
conclude now missing w t (some e) resp = run_failed now missing w e t
conclude now missing w t none none = (panicked, run_succeeded now missing w t)
conclude now missing w t none (some resp) =
    if str_eq resp.error ""
    then (
      returned
          (record {
            instance_key = missing.instance_key;
            worker_id = w.id;
            container_id = resp.container_id;
            success = true;
            error = "";
          })
          none,
      run_succeeded now missing w t,
    )
    else run_failed now missing w resp.error t

abbrev pub repair_with :
    ℤ → DesiredInstance → Worker → Instances → Result String RunClient → Repaired
repair_with now missing w t (err e) = record {
  outcome = returned (failure missing w.id "dial worker failed") (some e);
  instances = t;
  runs = [];
}
repair_with now missing w t (ok client) =
    let reply = client (run_request missing) in
    let (outcome, t') = conclude now missing w t reply.err reply.resp in
    record { outcome = outcome; instances = t'; runs = (w, run_request missing) ∷ [] }

abbrev pub repair_on :
    ℤ → RepairService → DesiredInstance → Instances → Result SelectError Worker → Repaired
repair_on now s missing t (err e) = record {
  outcome =
      returned (failure missing "" "no feasible worker available")
        (some "no feasible worker available");
  instances = t;
  runs = [];
}
repair_on now s missing t (ok w) = repair_with now missing w t (s.client_factory w)

unfoldable pub repair_missing : ℤ → RepairService → DesiredInstance → ℤ → ℤ → Instances → Repaired
unfolding target_worker
repair_missing now s missing running_count desired_count t =
    if leb_ℤ desired_count running_count
    then record {
      outcome =
          returned (failure missing "" "replica count invariant: running count >= desired count")
            none;
      instances = t;
      runs = [];
    }
    else repair_on now s missing t (target_worker s missing)
