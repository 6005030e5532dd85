-- ===== src/Deployments/Lifecycle.antt =====
-- internal/deployments/model.go and state_machine.go: the status of a deployment, the table of
-- legal transitions, and the test that every status change is meant to pass.
pub mod Runs
use almichot_cloud.Prelude.{
  ℤ, String, Map, Bool, true, false, ◌||◌, Option, none, some, if◌then◌else◌,
}

pub data DeploymentStatus : Type 0 where
  queued : DeploymentStatus
  building : DeploymentStatus
  built : DeploymentStatus
  scheduling : DeploymentStatus
  starting : DeploymentStatus
  running : DeploymentStatus
  failed : DeploymentStatus
  stopped : DeploymentStatus
  rolled_back : DeploymentStatus

-- s == t
abbrev pub status_eq : DeploymentStatus → DeploymentStatus → Bool
status_eq queued queued = true
status_eq building building = true
status_eq built built = true
status_eq scheduling scheduling = true
status_eq starting starting = true
status_eq running running = true
status_eq failed failed = true
status_eq stopped stopped = true
status_eq rolled_back rolled_back = true
status_eq s t = false

unfoldable pub is_terminal : DeploymentStatus → Bool
is_terminal s =
    status_eq s running || (status_eq s failed || (status_eq s stopped || status_eq s rolled_back))

unfoldable pub is_in_flight : DeploymentStatus → Bool
is_in_flight s =
    status_eq s queued
    || (status_eq s building
        || (status_eq s built || (status_eq s scheduling || status_eq s starting)))

-- legalTransitions[from][to]
unfoldable pub legal_transitions : DeploymentStatus → DeploymentStatus → Bool
legal_transitions queued building = true
legal_transitions queued scheduling = true
legal_transitions queued failed = true
legal_transitions building built = true
legal_transitions building failed = true
legal_transitions built scheduling = true
legal_transitions built failed = true
legal_transitions scheduling starting = true
legal_transitions scheduling failed = true
legal_transitions starting running = true
legal_transitions starting failed = true
legal_transitions running stopped = true
legal_transitions running failed = true
legal_transitions running rolled_back = true
legal_transitions s t = false

pub record IllegalTransition : Type 0 where
  from_status : DeploymentStatus
  to_status : DeploymentStatus

-- `none` is the nil error.
unfoldable pub validate_transition : DeploymentStatus → DeploymentStatus → Option IllegalTransition
unfolding legal_transitions
validate_transition s t =
    if status_eq s t
    then none
    else if legal_transitions s t
    then none
    else some (record { from_status = s; to_status = t })

-- A zero time is `none`.
pub record Deployment : Type 0 where
  pub id : String
  pub project_id : String
  pub revision : String
  pub image : String
  pub image_digest : String
  pub desired_state : String
  pub status : DeploymentStatus
  pub stage : String
  pub instance_count : ℤ
  pub desired_replicas : ℤ
  pub env : Map String
  pub labels : Map String
  pub created_at : Option ℤ
  pub updated_at : Option ℤ

pub record Instance : Type 0 where
  pub id : String
  pub deployment_id : String
  pub worker_id : String
  pub instance_key : String
  pub status : String
  pub container_id : String
  pub created_at : Option ℤ
  pub updated_at : Option ℤ
