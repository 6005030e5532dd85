-- ===== src/Deployments/Service/RollingBack.antt =====
-- internal/deployments/service.go, Rollback: a release of the project that is known to be good is
-- deployed anew, and the instances of the deployment that it replaces are stopped.
use Prim.Native.String.{◌++◌ as text_append}
use almichot_cloud.Prelude.{
  pos, suc, String, Bool, false, not, ◌&&◌, ◌||◌, Option, none, some, List, [], ◌∷◌, ◌++◌, Map,
  str_eq, if◌then◌else◌, Result, ok, err,
}
use almichot_cloud.Deployments.Lifecycle.{
  Deployment, Instance, queued, failed, rolled_back, status_eq,
}
use almichot_cloud.Deployments.Repository.{Deployments}
use almichot_cloud.Deployments.Repository
use almichot_cloud.Deployments.Instances.{list_by_deployment}
use almichot_cloud.Deployments.Releases.{Release, list_by_project}
use almichot_cloud.Deployments.Events.{Value, text}
use almichot_cloud.Deployments.Service.{
  Collaborators, ServiceError, repository_error, already_rolled_back, no_previous_release, Service,
  Answer, refused, Progress, record_event, set_status_of,
}
use almichot_cloud.Deployments.Service.Dispatching.{schedule_and_dispatch_instances, instance_count}
use almichot_cloud.Deployments.Service.Creation.{create_deployment}
use almichot_cloud.Deployments.Service.Stopping.{stop_instances, retire}

abbrev failed_at : Result Repository.Error Deployment → Bool
failed_at (ok d) = status_eq d.status failed
failed_at (err e) = false

-- The tests of the loop over the releases.
unfoldable pub is_candidate : String → Deployments → Release → Bool
is_candidate current deployments rel =
    not (str_eq rel.deployment_id current || str_eq rel.image_digest "")
    && (str_eq rel.deployment_id ""
        || not (failed_at (Repository.get_by_id rel.deployment_id deployments)))

-- The release that is restored: the first candidate in the order of ListByProject.
unfoldable pub previous_release : String → Deployments → List Release → Option Release
unfolding is_candidate
previous_release current deployments [] = none
previous_release current deployments (rel ∷ rels) =
    let rest = previous_release current deployments rels in
    if is_candidate current deployments rel then some rel else rest

abbrev pub restored : String → Deployment → Release → Deployment
restored id dep rel = record {
  id = id;
  project_id = dep.project_id;
  revision = rel.version;
  image = rel.image_ref;
  image_digest = rel.image_digest;
  desired_state = "RUNNING";
  status = queued;
  stage = "QUEUED";
  instance_count = instance_count dep.instance_count;
  desired_replicas = pos 0;
  env = dep.env;
  labels = dep.labels;
  created_at = none;
  updated_at = none;
}

-- SnapshotForDeployment for the new deployment.
abbrev pub snapshot : Collaborators → String → String → Service → Service
snapshot c project id s = elim c.secrets [
  | none ↦ s
  | some get ↦
      if str_eq project "" then s else record s { snapshots = s.snapshots ++ (project, id) ∷ [] }
]

unfoldable pub begin_rollback : Collaborators → Deployment → Release → Service → Progress
unfolding create_deployment
begin_rollback c dep rel s =
    let p =
      create_deployment c (restored (c.uuid s.draws) dep rel) (record s { draws = suc s.draws }) in
    record p { svc = snapshot c dep.project_id p.dep.id p.svc }

abbrev rolled_back_message : Deployment → Release → String
rolled_back_message dep rel = text_append "Deployment " (
    text_append dep.id (
      text_append " rolled back to release "
        (text_append rel.version (text_append " (digest " (text_append rel.image_digest ")")))))

abbrev rollback_metadata : Deployment → String → Release → Map Value
rollback_metadata dep new_id rel =
    ("source_deployment_id", text dep.id)
    ∷ ("restored_deployment_id", text new_id)
    ∷ ("target_version", text rel.version)
    ∷ ("target_image", text rel.image_ref)
    ∷ ("target_digest", text rel.image_digest)
    ∷ ("previous_release_id", text rel.id)
    ∷ []

-- The old deployment's end, once the new one runs.
unfoldable pub end_rollback : Collaborators → Deployment → String → Release → Service → Service
unfolding stop_instances set_status_of record_event
end_rollback c dep new_id rel s =
    let p =
      retire c dep.id rolled_back "ROLLED_BACK" dep
        (stop_instances c dep.project_id (list_by_deployment dep.id s.instances) s) in
    record_event c dep.project_id dep.id "DEPLOYMENT_ROLLED_BACK" (rolled_back_message dep rel)
      (some (rollback_metadata dep new_id rel)) p.svc

abbrev pub after_dispatch :
    Collaborators
    → Deployment
    → Release
    → Progress
    → List Instance
    → Option ServiceError
    → Answer × Service
after_dispatch c dep rel p created (some e) =
    (record { dep = some p.dep; instances = []; error = some e }, p.svc)
after_dispatch c dep rel p created none = (
  record { dep = some p.dep; instances = created; error = none },
  end_rollback c dep p.dep.id rel p.svc,
)

abbrev pub restore : Collaborators → Deployment → Service → Option Release → Answer × Service
restore c dep s none = (refused (no_previous_release dep.project_id), s)
restore c dep s (some rel) =
    let d =
      schedule_and_dispatch_instances c [] [] rel.image_digest rel.signature
        (begin_rollback c dep rel s) in
    after_dispatch c dep rel d.progress d.created d.error

abbrev pub roll_back_found :
    Collaborators → String → Service → Result Repository.Error Deployment → Answer × Service
roll_back_found c id s (err e) = (refused (repository_error e), s)
roll_back_found c id s (ok dep) =
    if status_eq dep.status rolled_back
    then (refused (already_rolled_back id), s)
    else restore c dep s
        (previous_release dep.id s.deployments (list_by_project dep.project_id s.releases))

unfoldable pub rollback : Collaborators → String → Service → Answer × Service
unfolding previous_release begin_rollback end_rollback schedule_and_dispatch_instances
rollback c id s = roll_back_found c id s (Repository.get_by_id id s.deployments)
