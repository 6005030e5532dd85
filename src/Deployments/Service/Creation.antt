-- ===== src/Deployments/Service/Creation.antt =====
-- internal/deployments/service.go, CreateAndDeploy: a deployment is recorded, its image is built and
-- pushed or looked up, the release is recorded, and its instances are started.
use Prim.Native.String.{◌++◌ as text_append}
use almichot_cloud.Prelude.{
  ℤ, pos, suc, String, not, ◌&&◌, Option, none, some, List, [], ◌∷◌, ◌++◌, Map, str_eq,
  if◌then◌else◌, Result, ok, err, decimal, short_id, to_lower, contains,
}
use almichot_cloud.Election.{Elector, record_decision}
use almichot_cloud.Election
use almichot_cloud.Deployments.Lifecycle.{Deployment, queued, building, built, failed}
use almichot_cloud.Deployments.Repository.{update_image}
use almichot_cloud.Deployments.Repository
use almichot_cloud.Deployments.Releases
use almichot_cloud.Deployments.Service.{
  CreateDeploymentParams, BuildResult, Collaborators, ServiceError, nothing_to_deploy, not_leader,
  crashed, build_failed, push_rejected, registry_unavailable, Service, Answer, refused, Progress,
  or_same, set_status, record_event,
}
use almichot_cloud.Deployments.Service.Dispatching.{
  Dispatched, schedule_and_dispatch_instances, instance_count,
}

-- RecordDecision of the elector, if one is set: an instance that does not lead is refused.
abbrev decided : Service → Result Election.Error ℤ × Elector → Option Service
decided s (ok t, e) = some (record s { elector = some e })
decided s (err x, e) = none

unfoldable pub pass_fence : ℤ → Service → Option Service
unfolding record_decision
pass_fence now s = elim s.elector [ none ↦ some s | some e ↦ decided s (record_decision now e) ]

-- depRepo.Create; the caller's record is stamped.
unfoldable pub create_deployment : Collaborators → Deployment → Service → Progress
unfolding Repository.create
create_deployment c d s =
    let (d', m) = Repository.create c.now d s.deployments in
    record {
      dep = d';
      svc = record s { deployments = m; writes = s.writes ++ (d.id, d.status) ∷ [] };
    }

abbrev values_of : Map String → List String
values_of [] = []
values_of ((k, v) ∷ m) = v ∷ values_of m

abbrev secret_values : Result String (Map String) → List String
secret_values (ok m) = values_of m
secret_values (err e) = []

-- SnapshotForDeployment, and the values that the redactor learns.
unfoldable pub snapshot_secrets : Collaborators → String → String → Service → Service
snapshot_secrets c project deployment_id s = elim c.secrets [
  | none ↦ s
  | some get ↦ if str_eq project "" then s else record s {
    snapshots = s.snapshots ++ (project, deployment_id) ∷ [];
    redacted =
        if c.has_redactor then s.redacted ++ secret_values (get deployment_id) else s.redacted;
  }
]

-- dep.Image, dep.ImageDigest, and UpdateImage; a failure of the write is only logged.
unfoldable pub set_image : ℤ → String → String → Progress → Progress
set_image now image digest p = record {
  dep = record p.dep { image = image; image_digest = digest };
  svc = record p.svc {
    deployments =
        or_same p.svc.deployments (update_image now p.dep.id image digest p.svc.deployments);
  };
}

-- The image of the deployment is known, with the ports of its build, or the operation ends.
pub record Imaged : Type 0 where
  pub progress : Progress
  pub ports : List ℤ
  pub error : Option ServiceError

abbrev pub imaged : Progress → List ℤ → Imaged
imaged p ports = record { progress = p; ports = ports; error = none }

abbrev pub image_failed : Collaborators → String → ServiceError → Progress → Imaged
image_failed c stage e p = record {
  progress = set_status c.now failed stage p;
  ports = [];
  error = some e;
}

abbrev pub image_crash : Option String → Progress → Imaged → Imaged
image_crash (some e) p rest = record { progress = p; ports = []; error = some (crashed e) }
image_crash none p rest = rest

abbrev pub push_stage : String → String
push_stage message =
    if contains (to_lower message) "unavailable"
    then "REGISTRY_UNAVAILABLE"
    else "REGISTRY_PUSH_FAILED"

-- From the answer of the registry on: BUILT.
abbrev pub pushed : Collaborators → BuildResult → Result String String → Progress → Imaged
pushed c b (err e) p = image_failed c (push_stage e) (push_rejected e) p
pushed c b (ok digest) p =
    let q = set_status c.now built "BUILT" (set_image c.now b.image_tag digest p) in
    image_crash (c.crash_hook built) q (imaged q b.ports)

-- From the answer of the builder on.
abbrev pub built_from : Collaborators → Result String BuildResult → Progress → Imaged
built_from c (err e) p = image_failed c "BUILD_FAILED" (build_failed e) p
built_from c (ok b) p = pushed c b (c.registry_client.push b.image_tag b.image_data b.digest) p

abbrev image_tag : String → String → String
image_tag project id = text_append "nebula/" (text_append project (text_append ":" (short_id id)))

abbrev pub run_build : Collaborators → CreateDeploymentParams → String → Result String BuildResult
run_build c params id =
    c.build params.project_id params.source_path (image_tag params.project_id id) params.env

unfoldable pub build_image : Collaborators → CreateDeploymentParams → Progress → Imaged
unfolding set_status set_image to_lower
build_image c params p =
    let q = set_status c.now building "BUILDING" p in
    image_crash (c.crash_hook building) q (built_from c (run_build c params p.dep.id) q)

-- From the answer of the registry on, for an image that is given: an image that it does not know
-- goes on without a digest.
abbrev pub resolved : Collaborators → Result String String → Progress → Imaged
resolved c (ok digest) p = imaged (set_image c.now p.dep.image digest p) []
resolved c (err e) p =
    if contains (to_lower e) "unavailable"
    then image_failed c "REGISTRY_UNAVAILABLE" (registry_unavailable e) p
    else imaged p []

unfoldable pub obtain_image : Collaborators → CreateDeploymentParams → Progress → Imaged
unfolding build_image set_status set_image to_lower
obtain_image c params p =
    if not (str_eq params.source_path "")
    then build_image c params p
    else if not (str_eq params.image "")
    then resolved c (c.registry_client.get_digest params.image) p
    else imaged p []

abbrev signed : Result String String → String
signed (ok sig) = sig
signed (err e) = ""

-- The signature of the digest, empty where there is none.
unfoldable pub sign : Collaborators → String → String
sign c digest = elim c.signer [
  | none ↦ ""
  | some s ↦ if str_eq digest "" then "" else signed (s digest)
]

unfoldable pub record_release : Collaborators → String → Progress → Progress
record_release c signature p = if str_eq p.dep.image "" then p else record p {
  svc = record p.svc {
    releases =
        (Releases.create c.now ""
          (record {
            id = c.uuid p.svc.draws;
            project_id = p.dep.project_id;
            deployment_id = p.dep.id;
            version = short_id p.dep.id;
            image_ref = p.dep.image;
            image_digest = p.dep.image_digest;
            signature = signature;
            created_at = some c.now;
          })
          p.svc.releases).1;
    draws = suc p.svc.draws;
  };
}

abbrev pub answer_of : Dispatched → Answer × Service
answer_of d =
    (record { dep = some d.progress.dep; instances = d.created; error = d.error }, d.progress.svc)

abbrev pub ended : Progress → ServiceError → Answer × Service
ended p e = (record { dep = some p.dep; instances = []; error = some e }, p.svc)

-- From the image on.
abbrev pub release_and_dispatch :
    Collaborators
    → CreateDeploymentParams
    → Progress
    → List ℤ
    → Option ServiceError
    → Answer × Service
release_and_dispatch c params p built_ports (some e) = ended p e
release_and_dispatch c params p built_ports none =
    let signature = sign c p.dep.image_digest in
    let q = record_release c signature p in
    answer_of
      (schedule_and_dispatch_instances c params.ports built_ports q.dep.image_digest signature q)

-- The record of a new deployment, and the event that it is queued.
abbrev pub new_deployment : CreateDeploymentParams → String → Deployment
new_deployment params id = record {
  id = id;
  project_id = params.project_id;
  revision = "";
  image = params.image;
  image_digest = "";
  desired_state = "RUNNING";
  status = queued;
  stage = "QUEUED";
  instance_count = instance_count params.instance_count;
  desired_replicas = pos 0;
  env = params.env;
  labels = params.labels;
  created_at = none;
  updated_at = none;
}

abbrev queued_message : Deployment → String
queued_message d = text_append "Deployment queued for project " (
    text_append d.project_id
      (text_append " with " (text_append (decimal d.instance_count) " desired replicas")))

unfoldable pub enqueue : Collaborators → CreateDeploymentParams → Service → Progress
unfolding create_deployment record_event snapshot_secrets
enqueue c params s =
    let p =
      create_deployment c (new_deployment params (c.uuid s.draws))
        (record s { draws = suc s.draws }) in
    let t =
      record_event c p.dep.project_id p.dep.id "DEPLOYMENT_QUEUED" (queued_message p.dep) none
        p.svc in
    record p { svc = snapshot_secrets c params.project_id p.dep.id t }

abbrev pub unless_ended : Option String → Progress → Answer × Service → Answer × Service
unless_ended (some e) p rest = ended p (crashed e)
unless_ended none p rest = rest

-- From the fence on.
abbrev pub deploy : Collaborators → CreateDeploymentParams → Service → Answer × Service
deploy c params s =
    let p = enqueue c params s in
    let i = obtain_image c params p in
    unless_ended (c.crash_hook queued) p (release_and_dispatch c params i.progress i.ports i.error)

abbrev pub fenced :
    Collaborators → CreateDeploymentParams → Service → Option Service → Answer × Service
fenced c params s none = (refused not_leader, s)
fenced c params s (some t) = deploy c params t

unfoldable pub create_and_deploy :
    Collaborators → CreateDeploymentParams → Service → Answer × Service
unfolding pass_fence enqueue obtain_image sign record_release schedule_and_dispatch_instances
create_and_deploy c params s =
    if str_eq params.image "" && str_eq params.source_path ""
    then (refused nothing_to_deploy, s)
    else fenced c params s (pass_fence c.now s)
