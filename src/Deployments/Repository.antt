-- ===== src/Deployments/Repository.antt =====
-- internal/deployments/repository.go: MemoryDeploymentRepository. Callers get and leave copies, so
-- the map holds the records themselves; only the repository writes to them.
pub mod Kept
use almichot_cloud.Prelude.{
  ℤ, String, Bool, true, false, ◌||◌, Option, none, some, List, [], ◌∷◌, Map, lookup, insert,
  str_eq, if◌then◌else◌, Result, ok, err,
}
use almichot_cloud.Deployments.Lifecycle.{Deployment, DeploymentStatus}

pub data Error : Type 0 where
  deployment_not_found : Error
  instance_not_found : Error

abbrev pub Deployments : Type 0
Deployments = Map Deployment

abbrev pub or_now : ℤ → Option ℤ → Option ℤ
or_now now none = some now
or_now now (some t) = some t

-- Create stamps the caller's record and stores a copy; both come back.
unfoldable pub create : ℤ → Deployment → Deployments → Deployment × Deployments
create now d m =
    let stamped = record d { created_at = or_now now d.created_at; updated_at = some now } in
    (stamped, insert d.id stamped m)

abbrev pub found : Option Deployment → Result Error Deployment
found none = err deployment_not_found
found (some d) = ok d

unfoldable pub get_by_id : String → Deployments → Result Error Deployment
get_by_id i m = found (lookup i m)

-- A change of the stored record, through its pointer.
abbrev pub change :
    (Deployment → Deployment) → String → Deployments → Option Deployment → Result Error Deployments
change f i m none = err deployment_not_found
change f i m (some d) = ok (insert i (f d) m)

abbrev pub with_status : ℤ → DeploymentStatus → String → Deployment → Deployment
with_status now s stage d = record d {
  status = s;
  stage = if str_eq stage "" then d.stage else stage;
  updated_at = some now;
}

unfoldable pub update_status :
    ℤ → String → DeploymentStatus → String → Deployments → Result Error Deployments
update_status now i s stage m = change (with_status now s stage) i m (lookup i m)

unfoldable pub update_image : ℤ → String → String → String → Deployments → Result Error Deployments
update_image now i image digest m =
    change (λ d. record d { image = image; image_digest = digest; updated_at = some now }) i m
      (lookup i m)

unfoldable pub update_scale : ℤ → String → ℤ → Deployments → Result Error Deployments
update_scale now i count m =
    change
      (λ d. record d { instance_count = count; desired_replicas = count; updated_at = some now }) i
      m (lookup i m)

-- The records of a project, all of them for the empty name.
unfoldable pub list : String → Deployments → List Deployment
list project [] = []
list project ((i, d) ∷ m) =
    let rest = list project m in
    if str_eq project "" || str_eq d.project_id project then d ∷ rest else rest

unfoldable pub wipe : Deployments → Deployments
wipe m = []
