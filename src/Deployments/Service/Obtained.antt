-- ===== src/Deployments/Service/Obtained.antt =====
-- internal/deployments/service.go, CreateAndDeploy: how the part that gets the image ends.
use almichot_cloud.Prelude.{
  String, ◌≡◌, refl, ◌∙◌, Option, none, some, Result, ok, err, ◌⊎◌, inl, inr, str_eq, Bool-cases,
  contains, to_lower,
}
use almichot_cloud.Deployments.Lifecycle.{
  queued, building, built, scheduling, failed, validate_transition,
}
use almichot_cloud.Deployments.Service.{
  CreateDeploymentParams, BuildResult, Collaborators, ServiceError, crashed, Progress, set_status,
}
use almichot_cloud.Deployments.Service.Creation.{
  Imaged, imaged, image_failed, image_crash, push_stage, pushed, built_from, build_image, run_build,
  resolved, obtain_image, set_image,
}
use almichot_cloud.Deployments.Service.History.{
  Advances, Advances-stay, Advances-trans, set_status-Advances,
}
use almichot_cloud.Deployments.Service.Rounds.{legal_from}

-- The image is there and the deployment may be scheduled, or it failed, or the crash hook fired.
abbrev pub IsObtained : Progress → Progress → Option ServiceError → Type 0
IsObtained p q none =
    Advances p q
    × (validate_transition q.dep.status scheduling ≡ none)
    × (q.dep.instance_count ≡ p.dep.instance_count)
IsObtained p q (some e) =
    Advances p q × ((q.dep.status ≡ failed) ⊎ ((m : String) × (e ≡ crashed m)))

abbrev pub IsImaged : Progress → Imaged → Type 0
IsImaged p i = IsObtained p i.progress i.error

pub IsImaged-from :
    (p p' q : Progress) (e : Option ServiceError)
    → Advances p p'
    → p'.dep.instance_count ≡ p.dep.instance_count
    → IsObtained p' q e
    → IsObtained p q e
IsImaged-from p p' q none a n (b, v, m) = (Advances-trans p p' q a b, v, m ∙ n)
IsImaged-from p p' q (some e) a n (b, f) = (Advances-trans p p' q a b, f)

pub image_crash-IsImaged :
    (p q : Progress) (o : Option String) (rest : Imaged)
    → Advances p q
    → IsImaged p rest
    → IsImaged p (image_crash o q rest)
image_crash-IsImaged p q (some m) rest a h = (a, inr (m, refl))
image_crash-IsImaged p q none rest a h = h

pub image_failed-IsImaged :
    (c : Collaborators) (stage : String) (e : ServiceError) (p : Progress)
    → validate_transition p.dep.status failed ≡ none
    → IsImaged p (image_failed c stage e p)
unfolding set_status
image_failed-IsImaged c stage e p v = (set_status-Advances c.now failed stage p v, inl refl)

pub pushed-IsImaged :
    (c : Collaborators) (b : BuildResult) (r : Result String String) (p : Progress)
    → p.dep.status ≡ building
    → IsImaged p (pushed c b r p)
unfolding set_status set_image validate_transition
pushed-IsImaged c b (err e) p s =
    image_failed-IsImaged c (push_stage e) _ p (legal_from p.dep.status building failed s refl)
pushed-IsImaged c b (ok digest) p s =
    let q = set_image c.now b.image_tag digest p in
    let r = set_status c.now built "BUILT" q in
    let a : Advances p r =
      Advances-trans p q r (Advances-stay p q refl refl refl) (
        set_status-Advances c.now built "BUILT" q
          (legal_from p.dep.status building built s refl)) in
    image_crash-IsImaged p r (c.crash_hook built) (imaged r b.ports) a (a, refl, refl)

pub built_from-IsImaged :
    (c : Collaborators) (r : Result String BuildResult) (p : Progress)
    → p.dep.status ≡ building
    → IsImaged p (built_from c r p)
unfolding validate_transition
built_from-IsImaged c (err e) p s =
    image_failed-IsImaged c "BUILD_FAILED" _ p (legal_from p.dep.status building failed s refl)
built_from-IsImaged c (ok b) p s = pushed-IsImaged c b _ p s

pub build_image-IsImaged :
    (c : Collaborators) (params : CreateDeploymentParams) (p : Progress)
    → p.dep.status ≡ queued
    → IsImaged p (build_image c params p)
unfolding build_image set_status validate_transition
build_image-IsImaged c params p s =
    let q = set_status c.now building "BUILDING" p in
    let r = built_from c (run_build c params p.dep.id) q in
    let a =
      set_status-Advances c.now building "BUILDING" p
        (legal_from p.dep.status queued building s refl) in
    image_crash-IsImaged p q (c.crash_hook building) r a (
      IsImaged-from p q r.progress r.error a refl
        (built_from-IsImaged c (run_build c params p.dep.id) q refl))

pub resolved-IsImaged :
    (c : Collaborators) (r : Result String String) (p : Progress)
    → p.dep.status ≡ queued
    → IsImaged p (resolved c r p)
unfolding set_image validate_transition
resolved-IsImaged c (ok digest) p s =
    (Advances-stay p _ refl refl refl, legal_from p.dep.status queued scheduling s refl, refl)
resolved-IsImaged c (err e) p s = elim (Bool-cases (contains (to_lower e) "unavailable")) [
  | inl b ↦ rw b (
      image_failed-IsImaged c "REGISTRY_UNAVAILABLE" _ p
        (legal_from p.dep.status queued failed s refl))
  | inr b ↦
      rw b
        (Advances-stay p p refl refl refl, legal_from p.dep.status queued scheduling s refl, refl)
]

pub obtain_image-IsImaged :
    (c : Collaborators) (params : CreateDeploymentParams) (p : Progress)
    → p.dep.status ≡ queued
    → IsImaged p (obtain_image c params p)
unfolding obtain_image validate_transition
obtain_image-IsImaged c params p s = elim (Bool-cases (str_eq params.source_path "")) [
  | inr b ↦ rw b (build_image-IsImaged c params p s)
  | inl b ↦ elim (Bool-cases (str_eq params.image "")) [
    | inr d ↦ rw (b, d) (resolved-IsImaged c (c.registry_client.get_digest params.image) p s)
    | inl d ↦
        rw (b, d)
          (Advances-stay p p refl refl refl, legal_from p.dep.status queued scheduling s refl, refl)
  ]
]
