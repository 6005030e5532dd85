-- ===== src/Deployments/Service/Recorded.antt =====
-- internal/deployments/service.go, CreateAndDeploy: what is stored of the new deployment.
use almichot_cloud.Prelude.{
  ℤ, String, ◌≡◌, ◌≢◌, refl, ap, ◌∙◌, Option, none, some, Result, ok, err, inl, inr, List, str_eq,
  Bool-cases, Option-cases, contains, to_lower, lookup, lookup-insert_self, ◌&&◌,
}
use almichot_cloud.Deployments.Lifecycle.{Deployment, queued, building, built, failed}
use almichot_cloud.Deployments.Repository.{update_image}
use almichot_cloud.Deployments.Service.{
  CreateDeploymentParams, BuildResult, Collaborators, ServiceError, Service, Answer, Progress,
  set_status, record_event,
}
use almichot_cloud.Deployments.Service.Dispatching.{schedule_and_dispatch_instances}
use almichot_cloud.Deployments.Service.Creation.{
  Imaged, imaged, image_crash, push_stage, pushed, built_from, build_image, run_build, resolved,
  obtain_image, set_image, sign, record_release, release_and_dispatch, enqueue, create_deployment,
  snapshot_secrets, deploy, unless_ended, fenced, pass_fence, create_and_deploy,
}
use almichot_cloud.Deployments.Service.Retired.{HasStatus}
use almichot_cloud.Deployments.Service.Spared.{
  IsStored, set_status-Spared, schedule_and_dispatch-Spared,
}

set_image-IsStored :
    (now : ℤ) (image digest : String) (p : Progress)
    → IsStored p
    → IsStored (set_image now image digest p)
unfolding set_image update_image
set_image-IsStored now image digest p (d, l, e) =
    rw l (_, lookup-insert_self p.dep.id _ p.svc.deployments, e)

image_crash-IsStored :
    (o : Option String) (q : Progress) (rest : Imaged)
    → IsStored q
    → IsStored rest.progress
    → IsStored (image_crash o q rest).progress
image_crash-IsStored (some m) q rest h k = h
image_crash-IsStored none q rest h k = k

image_failed-IsStored :
    (c : Collaborators) (stage : String) (p : Progress)
    → IsStored p
    → IsStored (set_status c.now failed stage p)
image_failed-IsStored c stage p h = (set_status-Spared c.now failed stage p).stored h

pushed-IsStored :
    (c : Collaborators) (b : BuildResult) (r : Result String String) (p : Progress)
    → IsStored p
    → IsStored (pushed c b r p).progress
pushed-IsStored c b (err e) p h = image_failed-IsStored c (push_stage e) p h
pushed-IsStored c b (ok digest) p h =
    let q = set_image c.now b.image_tag digest p in
    let r = set_status c.now built "BUILT" q in
    let k =
      (set_status-Spared c.now built "BUILT" q).stored
        (set_image-IsStored c.now b.image_tag digest p h) in
    image_crash-IsStored (c.crash_hook built) r (imaged r b.ports) k k

build_image-IsStored :
    (c : Collaborators) (params : CreateDeploymentParams) (p : Progress)
    → IsStored p
    → IsStored (build_image c params p).progress
unfolding build_image
build_image-IsStored c params p h =
    let q = set_status c.now building "BUILDING" p in
    let k = (set_status-Spared c.now building "BUILDING" p).stored h in
    image_crash-IsStored (c.crash_hook building) q (built_from c (run_build c params p.dep.id) q) k
      (from (run_build c params p.dep.id) q k)
  where
    from :
        (r : Result String BuildResult) (q : Progress)
        → IsStored q
        → IsStored (built_from c r q).progress
    from (err e) q k = image_failed-IsStored c "BUILD_FAILED" q k
    from (ok b) q k = pushed-IsStored c b _ q k

resolved-IsStored :
    (c : Collaborators) (r : Result String String) (p : Progress)
    → IsStored p
    → IsStored (resolved c r p).progress
resolved-IsStored c (ok digest) p h = set_image-IsStored c.now p.dep.image digest p h
resolved-IsStored c (err e) p h = elim (Bool-cases (contains (to_lower e) "unavailable")) [
  | inl b ↦ rw b (image_failed-IsStored c "REGISTRY_UNAVAILABLE" p h)
  | inr b ↦ rw b h
]

obtain_image-IsStored :
    (c : Collaborators) (params : CreateDeploymentParams) (p : Progress)
    → IsStored p
    → IsStored (obtain_image c params p).progress
unfolding obtain_image
obtain_image-IsStored c params p h = elim (Bool-cases (str_eq params.source_path "")) [
  | inr b ↦ rw b (build_image-IsStored c params p h)
  | inl b ↦ elim (Bool-cases (str_eq params.image "")) [
    | inr d ↦ rw (b, d) (resolved-IsStored c (c.registry_client.get_digest params.image) p h)
    | inl d ↦ rw (b, d) h
  ]
]

record_release-IsStored :
    (c : Collaborators) (signature : String) (p : Progress)
    → IsStored p
    → IsStored (record_release c signature p)
unfolding record_release
record_release-IsStored c signature p h = elim (Bool-cases (str_eq p.dep.image "")) [
  | inl b ↦ rw b h
  | inr b ↦ rw b h
]

snapshot_secrets-deployments :
    (c : Collaborators) (project id : String) (s : Service)
    → (snapshot_secrets c project id s).deployments ≡ s.deployments
unfolding snapshot_secrets
snapshot_secrets-deployments c project id s = elim (Option-cases c.secrets) [
  | inl e ↦ rw e refl
  | inr (get, e) ↦ elim (Bool-cases (str_eq project "")) [
    | inl b ↦ rw (e, b) refl
    | inr b ↦ rw (e, b) refl
  ]
]

enqueue-IsStored :
    (c : Collaborators) (params : CreateDeploymentParams) (s : Service)
    → IsStored (enqueue c params s)
unfolding enqueue create_deployment record_event
enqueue-IsStored c params s = (
  _,
  ap (lookup (c.uuid s.draws)) (snapshot_secrets-deployments c params.project_id (c.uuid s.draws) _)
      ∙ lookup-insert_self (c.uuid s.draws) _ s.deployments,
  refl,
)

-- The deployment that an operation hands back is stored under its ID with its status.
abbrev IsKept : Answer × Service → Type 0
IsKept (a, t) = (d : Deployment) → a.dep ≡ some d → HasStatus d.id d.status t

kept :
    (p : Progress)
    → IsStored p
    → (d : Deployment) → some p.dep ≡ some d
    → HasStatus d.id d.status p.svc
kept p (x, l, st) d h = rw same (x, l, st)
  where
    same : d ≡ p.dep
    same = cc

release_and_dispatch-IsKept :
    (c : Collaborators) (params : CreateDeploymentParams) (p : Progress) (ports : List ℤ)
    → (e : Option ServiceError) → IsStored p
    → IsKept (release_and_dispatch c params p ports e)
release_and_dispatch-IsKept c params p ports (some e) h = kept p h
release_and_dispatch-IsKept c params p ports none h =
    let signature = sign c p.dep.image_digest in
    let q = record_release c signature p in
    let d = schedule_and_dispatch_instances c params.ports ports q.dep.image_digest signature q in
    kept d.progress (
      (schedule_and_dispatch-Spared c params.ports ports q.dep.image_digest signature q).stored
        (record_release-IsStored c signature p h))

deploy-IsKept :
    (c : Collaborators) (params : CreateDeploymentParams) (s : Service) → IsKept (deploy c params s)
deploy-IsKept c params s = by (c.crash_hook queued)
  where
    by :
        (o : Option String)
        → let p = enqueue c params s in
          let i = obtain_image c params p in
          IsKept (unless_ended o p (release_and_dispatch c params i.progress i.ports i.error))
    by (some m) = kept (enqueue c params s) (enqueue-IsStored c params s)
    by none =
        let p = enqueue c params s in
        let i = obtain_image c params p in
        release_and_dispatch-IsKept c params i.progress i.ports i.error
          (obtain_image-IsStored c params p (enqueue-IsStored c params s))

-- However CreateAndDeploy ends, a deployment that it hands back is stored under its ID with the
-- status that it hands back.
pub create_and_deploy-HasStatus :
    (c : Collaborators) (params : CreateDeploymentParams) (s : Service) (d : Deployment)
    → (create_and_deploy c params s).0.dep ≡ some d
    → HasStatus d.id d.status (create_and_deploy c params s).1
unfolding create_and_deploy
create_and_deploy-HasStatus c params s d h =
    elim (Bool-cases (str_eq params.image "" && str_eq params.source_path "")) [
      | inl b ↦ absurd (none-some (rw b at h) refl)
      | inr b ↦ rw b (by (pass_fence c.now s) (rw b at h))
    ]
  where
    none-some : none ≡ some d → d ≢ d
    none-some e = cc

    by :
        (o : Option Service)
        → (fenced c params s o).0.dep ≡ some d
        → HasStatus d.id d.status (fenced c params s o).1
    by none k = absurd (none-some k refl)
    by (some t) k = deploy-IsKept c params t d k
