-- ===== src/Deployments/Service/Conformance.antt =====
-- internal/deployments/service.go, CreateAndDeploy, against the lifecycle of state_machine.go: every
-- end of the operation, with the history of statuses that it wrote.
use almichot_cloud.Prelude.{
  ℤ, pos_part, ℕ, String, ◌≡◌, refl, sym, ap, ◌∙◌, false, ◌&&◌, Option, none, some, List, [], ◌∷◌,
  ◌++◌, arith, ◌⊎◌, inl, inr, length, str_eq, Bool-cases, Option-cases,
}
use mathlib.Core.Path.{subst}
use mathlib.Core.List.{append_assoc}
use almichot_cloud.Election.{Elector, record_decision, is_leader}
use almichot_cloud.Deployments.Lifecycle.{
  Deployment, Instance, DeploymentStatus, queued, scheduling, running, failed,
}
use almichot_cloud.Deployments.Lifecycle.Runs.{Run, visited}
use almichot_cloud.Deployments.Service.{
  CreateDeploymentParams, Collaborators, ServiceError, crashed, not_leader, refused, Service,
  Answer, Progress, record_event,
}
use almichot_cloud.Deployments.Service.Dispatching.{schedule_and_dispatch_instances, instance_count}
use almichot_cloud.Deployments.Service.Creation.{
  obtain_image, sign, record_release, release_and_dispatch, enqueue, create_deployment,
  snapshot_secrets, deploy, unless_ended, fenced, pass_fence, create_and_deploy,
}
use almichot_cloud.Deployments.Service.History.{
  Advances, Advances-stay, Advances-trans, Legal, Legal-Run, tagged,
}
use almichot_cloud.Deployments.Service.Outcome.{IsDispatched, schedule_and_dispatch-IsOutcome}
use almichot_cloud.Deployments.Service.Rounds.{AllRunning, legal_from}
use almichot_cloud.Deployments.Service.Obtained.{IsObtained, obtain_image-IsImaged}

record_release_keeps :
    (c : Collaborators) (signature : String) (p : Progress)
    → ((record_release c signature p).dep ≡ p.dep)
      × ((record_release c signature p).svc.writes ≡ p.svc.writes)
unfolding record_release
record_release_keeps c signature p = elim (Bool-cases (str_eq p.dep.image "")) [
  | inl b ↦ rw b (refl, refl)
  | inr b ↦ rw b (refl, refl)
]

snapshot_secrets-writes :
    (c : Collaborators) (project id : String) (s : Service)
    → (snapshot_secrets c project id s).writes ≡ s.writes
unfolding snapshot_secrets
snapshot_secrets-writes c project id s = ground arith

-- The deployment that CreateAndDeploy enters, QUEUED, and the status write that goes with it.
record IsEntered (s : Service) (count : ℤ) (p : Progress) : Type 0 where
  at_start : p.dep.status ≡ queued
  counted : p.dep.instance_count ≡ instance_count count
  first : p.svc.writes ≡ s.writes ++ (p.dep.id, queued) ∷ []

enqueue-IsEntered :
    (c : Collaborators) (params : CreateDeploymentParams) (s t : Service)
    → t.writes ≡ s.writes
    → IsEntered s params.instance_count (enqueue c params t)
unfolding enqueue create_deployment record_event
enqueue-IsEntered c params s t w = record {
  at_start = refl;
  counted = refl;
  first = snapshot_secrets-writes c _ _ _ ∙ ap (λ l. l ++ (c.uuid t.draws, queued) ∷ []) w;
}

-- The statuses that the service wrote since `s`, all under the ID of `d`, are a history of the state
-- machine from QUEUED to the status of `d`.
abbrev pub HasHistory : Service → Deployment → Service → Type 0
HasHistory s d t = (r : Run queued d.status) × (t.writes ≡ s.writes ++ tagged d.id (visited r))

Advances-HasHistory :
    (s : Service) (count : ℤ) (p q : Progress)
    → IsEntered s count p
    → Advances p q
    → HasHistory s q.dep q.svc
Advances-HasHistory s count p q e a =
    let (r, v) =
      Legal-Run queued q.dep.status a.path
        (subst (λ (x : DeploymentStatus). Legal x a.path q.dep.status) e.at_start a.legal) in
    (
      r,
      a.written
          ∙ ap (λ (l : List (String × DeploymentStatus)). l ++ tagged p.dep.id a.path) e.first
          ∙ append_assoc s.writes ((p.dep.id, queued) ∷ []) (tagged p.dep.id a.path)
          ∙ ap (λ (l : List DeploymentStatus). s.writes ++ tagged p.dep.id l) (sym v)
          ∙ ap (λ (id : String). s.writes ++ tagged id (visited r)) (sym a.same_id),
    )

-- An operation that hands no deployment back has changed nothing. One that does has written a legal
-- history for it; without an error it has the wanted number of instances, all running, and is RUNNING
-- itself, and with an error it is FAILED or was cut off by the crash hook.
abbrev pub IsCreated :
    Service → ℕ → Option Deployment → List Instance → Option ServiceError → Service → Type 0
IsCreated s n none xs none t = ⊥
IsCreated s n none xs (some e) t = (xs ≡ []) × (t ≡ s)
IsCreated s n (some d) xs none t =
    HasHistory s d t × (d.status ≡ running) × (length xs ≡ n) × AllRunning xs
IsCreated s n (some d) xs (some e) t =
    HasHistory s d t × ((d.status ≡ failed) ⊎ ((m : String) × (e ≡ crashed m)))

abbrev IsAnswer : Service → ℕ → Answer × Service → Type 0
IsAnswer s n (a, t) = IsCreated s n a.dep a.instances a.error t

instance_count_idem : (n : ℤ) → instance_count (instance_count n) ≡ instance_count n
instance_count_idem n = ground arith

dispatched-IsAnswer :
    (s : Service) (count : ℤ) (p q r : Progress) (created : List Instance) (e : Option ServiceError)
    → IsEntered s count p
    → Advances p q
    → q.dep.instance_count ≡ p.dep.instance_count
    → IsDispatched q (pos_part (instance_count q.dep.instance_count)) r created e
    → IsCreated s (pos_part (instance_count count)) (some r.dep) created e r.svc
dispatched-IsAnswer s count p q r created none en a k (b, st, l, all) = (
  Advances-HasHistory s count p r en (Advances-trans p q r a b),
  st,
  l
      ∙ ap (λ n. pos_part (instance_count n)) (k ∙ en.counted)
      ∙ ap pos_part (instance_count_idem count),
  all,
)
dispatched-IsAnswer s count p q r created (some x) en a k (b, f) =
    (Advances-HasHistory s count p r en (Advances-trans p q r a b), f)

release_and_dispatch-IsAnswer :
    (c : Collaborators) (params : CreateDeploymentParams) (s : Service) (p q : Progress)
    → (built_ports : List ℤ) (e : Option ServiceError) → IsEntered s params.instance_count p
    → IsObtained p q e
    → IsAnswer s
        (pos_part (instance_count params.instance_count))
        (release_and_dispatch c params q built_ports e)
release_and_dispatch-IsAnswer c params s p q built_ports (some e) en (a, f) =
    (Advances-HasHistory s params.instance_count p q en a, f)
release_and_dispatch-IsAnswer c params s p q built_ports none en (a, v, k) =
    let signature = sign c q.dep.image_digest in
    let r = record_release c signature q in
    let (d, w) = record_release_keeps c signature q in
    let d' =
      schedule_and_dispatch_instances c params.ports built_ports r.dep.image_digest signature r in
    dispatched-IsAnswer s params.instance_count p r d'.progress d'.created d'.error en
      (Advances-trans p q r a (Advances-stay q r (ap (λ x. x.id) d) (ap (λ x. x.status) d) w))
      (ap (λ x. x.instance_count) d ∙ k)
      (schedule_and_dispatch-IsOutcome c params.ports built_ports r.dep.image_digest signature r
        (legal_from r.dep.status q.dep.status scheduling (ap (λ x. x.status) d) v))

deploy-IsAnswer :
    (c : Collaborators) (params : CreateDeploymentParams) (s t : Service)
    → t.writes ≡ s.writes
    → IsAnswer s (pos_part (instance_count params.instance_count)) (deploy c params t)
deploy-IsAnswer c params s t w =
    let p = enqueue c params t in
    let en = enqueue-IsEntered c params s t w in
    let i = obtain_image c params p in
    unless_ended-IsAnswer (c.crash_hook queued) p
      (release_and_dispatch c params i.progress i.ports i.error)
      (Advances-HasHistory s params.instance_count p p en (Advances-stay p p refl refl refl))
      (release_and_dispatch-IsAnswer c params s p i.progress i.ports i.error en
        (obtain_image-IsImaged c params p en.at_start))
  where
    unless_ended-IsAnswer :
        (o : Option String) (p : Progress) (rest : Answer × Service)
        → HasHistory s p.dep p.svc
        → IsAnswer s (pos_part (instance_count params.instance_count)) rest
        → IsAnswer s (pos_part (instance_count params.instance_count)) (unless_ended o p rest)
    unless_ended-IsAnswer (some m) p rest h k = (h, inr (m, refl))
    unless_ended-IsAnswer none p rest h k = k

pass_fence-writes : (now : ℤ) (s t : Service) → pass_fence now s ≡ some t → t.writes ≡ s.writes
unfolding pass_fence record_decision
pass_fence-writes now s t h = elim (Option-cases s.elector) [
  | inl none_set ↦ ground arith
  | inr (e, set) ↦ elim (Bool-cases (is_leader e.state)) [
    | inl b ↦ ground arith
    | inr b ↦ ground arith
  ]
]

-- However CreateAndDeploy ends, it has kept to the lifecycle. Where it hands back no deployment
-- it reports an error and has changed nothing. Else the statuses that it wrote, all under the new
-- ID, are a history of the state machine from QUEUED to the status of the deployment; without an
-- error the deployment is RUNNING with as many instances as were asked for, at least one, all of
-- them RUNNING; with an error it is FAILED, or the crash hook cut the operation off.
pub create_and_deploy-IsCreated :
    (c : Collaborators) (params : CreateDeploymentParams) (s : Service)
    → let (a, t) = create_and_deploy c params s in
      IsCreated s (pos_part (instance_count params.instance_count)) a.dep a.instances a.error t
unfolding create_and_deploy
create_and_deploy-IsCreated c params s =
    elim (Bool-cases (str_eq params.image "" && str_eq params.source_path "")) [
      | inl b ↦ rw b (refl, refl)
      | inr b ↦ rw b (fenced-IsAnswer (pass_fence c.now s) refl)
    ]
  where
    fenced-IsAnswer :
        (o : Option Service)
        → pass_fence c.now s ≡ o
        → IsAnswer s (pos_part (instance_count params.instance_count)) (fenced c params s o)
    fenced-IsAnswer none h = (refl, refl)
    fenced-IsAnswer (some t) h = deploy-IsAnswer c params s t (pass_fence-writes c.now s t h)

-- With an elector that does not lead, CreateAndDeploy of an image or a source is refused, and no
-- record, container, route or event comes of it.
pub create_and_deploy-fenced :
    (c : Collaborators) (params : CreateDeploymentParams) (s : Service) (e : Elector)
    → (str_eq params.image "" && str_eq params.source_path "") ≡ false
    → s.elector ≡ some e
    → is_leader e.state ≡ false
    → create_and_deploy c params s ≡ (refused not_leader, s)
unfolding create_and_deploy pass_fence record_decision
create_and_deploy-fenced c params s e given set standby = rw (given, set, standby) refl
