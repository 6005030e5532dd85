-- ===== src/Deployments/Service.antt =====
-- internal/deployments/service.go: the state of the deployment service, what it calls, and the steps
-- that its operations share. It stands over the in-memory repositories, whose Create never fails.
-- An operation holds the lock of its project from its first write on, and is one step here; the time
-- does not change while it runs. `draws` counts the UUIDs and the free ports that were handed out,
-- `writes` the statuses that the service gave to deployments; spans, metrics and logs are left out.
pub mod History
pub mod Retired
pub mod Removal
pub mod Removed
pub mod Growth
pub mod Recorded
pub mod Grown
pub mod Previous
pub mod Spared
pub mod Restored
pub mod Scaled
pub mod Rounds
pub mod Outcome
pub mod Obtained
pub mod Conformance
pub mod Dispatching
pub mod Creation
pub mod Stopping
pub mod RollingBack
pub mod Scaling
use Prim.Native.String.{◌++◌ as text_append}
use almichot_cloud.Prelude.{
  ℤ, pos, ℕ, suc, String, Bool, true, false, not, ◌&&◌, Option, none, some, List, [], ◌∷◌, ◌++◌,
  Map, lookup, insert, str_eq, if◌then◌else◌, Result, ok, err,
}
use almichot_cloud.Election.{Elector}
use almichot_cloud.Workers.Model.{Worker}
use almichot_cloud.Workers.Registry.{Registry}
use almichot_cloud.Scheduler.Select.{SelectError}
use almichot_cloud.Scheduler.Rank.{Floats}
use almichot_cloud.Balancer.{Router}
use almichot_cloud.Deployments.Lifecycle.{Deployment, DeploymentStatus, Instance}
use almichot_cloud.Deployments.Repository.{Deployments, update_status}
use almichot_cloud.Deployments.Repository
use almichot_cloud.Deployments.Instances.{Instances}
use almichot_cloud.Deployments.Instances
use almichot_cloud.Deployments.Releases.{Releases}
use almichot_cloud.Deployments.Events.{Events, Event}
use almichot_cloud.Deployments.Events
use almichot_cloud.Deployments.Recovery.{Stop}

pub record PortSpec : Type 0 where
  pub host_port : ℤ
  pub container_port : ℤ
  pub protocol : String

pub record CreateDeploymentParams : Type 0 where
  pub project_id : String
  pub source_path : String
  pub image : String
  pub instance_count : ℤ
  pub env : Map String
  pub labels : Map String
  pub ports : List PortSpec

-- proto.RunContainerRequest and proto.RunContainerResponse; the ports of a request are int32.
pub record RunContainerRequest : Type 0 where
  pub instance_id : String
  pub deployment_id : String
  pub image : String
  pub env : Map String
  pub labels : Map String
  pub ports : List PortSpec

pub record RunContainerResponse : Type 0 where
  pub container_id : String
  pub error : String

-- What the service calls of a worker and uses the answer of. A nil response comes with an error.
pub record WorkerClient : Type 0 where
  pub run_container : RunContainerRequest → Result String RunContainerResponse

pub record BuildResult : Type 0 where
  pub image_tag : String
  pub digest : String
  pub image_data : List ℕ
  pub ports : List ℤ

pub record RegistryClient : Type 0 where
  pub push : String → List ℕ → String → Result String String
  pub get_digest : String → Result String String

-- The collaborators of the service and the outside world.
pub record Collaborators : Type 1 where
  pub now : ℤ
  pub uuid : ℕ → String
  pub free_port : ℕ → ℤ
  pub floats : Floats
  pub parse : String → Option String
  pub client : Worker → Result String WorkerClient
  pub build : String → String → String → Map String → Result String BuildResult
  pub registry_client : RegistryClient
  pub signer : Option (String → Result String String)
  pub secrets : Option (String → Result String (Map String))
  pub has_redactor : Bool
  pub crash_hook : DeploymentStatus → Option String

pub data ServiceError : Type 0 where
  nothing_to_deploy not_leader no_running_deployment : ServiceError
  crashed build_failed push_rejected registry_unavailable : String → ServiceError
  scheduler_failed : String → SelectError → ServiceError
  connect_failed : String → String → ServiceError
  run_failed : String → ServiceError
  repository_error : Repository.Error → ServiceError
  already_rolled_back no_previous_release : String → ServiceError
  bad_target : ℤ → ServiceError
  not_running : String → DeploymentStatus → ServiceError

-- A RunContainer request and the worker that it went to.
pub record Dispatch : Type 0 where
  pub worker_key : String
  pub request : RunContainerRequest

pub record Service : Type 0 where
  pub deployments : Deployments
  pub instances : Instances
  pub releases : Releases
  pub events : Events
  pub registry : Registry
  pub router : Router
  pub elector : Option Elector
  pub draws : ℕ
  pub dispatched : List Dispatch
  pub stops : List Stop
  pub snapshots : List (String × String)
  pub redacted : List String
  pub writes : List (String × DeploymentStatus)

-- What an operation returns; `error = none` is the nil error.
pub record Answer : Type 0 where
  pub dep : Option Deployment
  pub instances : List Instance
  pub error : Option ServiceError

abbrev pub refused : ServiceError → Answer
refused e = record { dep = none; instances = []; error = some e }

-- A deployment that an operation has in hand, and the state around it.
pub record Progress : Type 0 where
  pub dep : Deployment
  pub svc : Service

abbrev pub or_same {ℓ κ} : {E : Type ℓ} {A : Type κ} → A → Result E A → A
or_same a (ok b) = b
or_same a (err e) = a

-- dep.Status = …, dep.Stage = …, and UpdateStatus under an ID; a failure of the write is only logged.
unfoldable pub set_status_of : ℤ → String → DeploymentStatus → String → Progress → Progress
set_status_of now id s stage p = record {
  dep = record p.dep { status = s; stage = stage };
  svc = record p.svc {
    deployments = or_same p.svc.deployments (update_status now id s stage p.svc.deployments);
    writes = p.svc.writes ++ (id, s) ∷ [];
  };
}

-- The same under the deployment's own ID.
unfoldable pub set_status : ℤ → DeploymentStatus → String → Progress → Progress
unfolding set_status_of
set_status now s stage p = set_status_of now p.dep.id s stage p

abbrev or_unstamped :
    Instance → Instances → Result Repository.Error (Instance × Instances) → Instance × Instances
or_unstamped x t (ok r) = r
or_unstamped x t (err e) = (x, t)

-- instRepo.Update; a failure is only logged.
unfoldable pub save_instance : ℤ → Instance → Service → Instance × Service
save_instance now x s =
    let (x', t) = or_unstamped x s.instances (Instances.update now x s.instances) in
    (x', record s { instances = t })

-- An event under a fresh ID.
unfoldable pub record_event :
    Collaborators
    → String
    → String
    → String
    → String
    → Option (Map Events.Value)
    → Service
    → Service
record_event c project deployment_id event_type message metadata s =
    let ev : Event = record {
      id = "";
      project_id = project;
      deployment_id = deployment_id;
      event_type = event_type;
      message = message;
      metadata = metadata;
      created_at = none;
    } in
    record s { events = (Events.create c.now (c.uuid s.draws) ev s.events).1; draws = suc s.draws }

-- getProjectLock: the name that the lock of a project is kept under.
unfoldable pub project_lock : String → String
project_lock project = if str_eq project "" then "default" else project
