-- ===== src/Deployments/Service/Restored.antt =====
-- internal/deployments/service.go, Rollback: what becomes of the two deployments.
use mathlib.Core.Path.{subst}
use almichot_cloud.Prelude.{
  ℕ, suc, String, ◌≡◌, ◌≢◌, refl, sym, ap, ◌∙◌, false, Option, none, some, List, [], arith, eq_iff,
  str_eq, inl, inr, Bool-cases, Option-cases, lookup, lookup-insert,
}
use almichot_cloud.Balancer.Targets.{has_target}
use almichot_cloud.Deployments.Lifecycle.{
  Deployment, Instance, running, rolled_back, status_eq, validate_transition,
}
use almichot_cloud.Deployments.Repository.{Deployments}
use almichot_cloud.Deployments.Repository
use almichot_cloud.Deployments.Releases.{Release, list_by_project}
use almichot_cloud.Deployments.Service.{
  Collaborators, ServiceError, Service, Answer, Progress, record_event,
}
use almichot_cloud.Deployments.Service.Dispatching.{schedule_and_dispatch_instances}
use almichot_cloud.Deployments.Service.Creation.{create_deployment}
use almichot_cloud.Deployments.Service.RollingBack.{
  previous_release, begin_rollback, end_rollback, after_dispatch, restore, restored, snapshot,
  rollback,
}
use almichot_cloud.Deployments.Service.Previous.{IsFirst, previous_release-IsFirst}
use almichot_cloud.Deployments.Service.Retired.{
  HasStatus, set_status_of-HasStatus, stop_instances-deployments,
}
use almichot_cloud.Deployments.Service.Stopping.{stop_instances}
use almichot_cloud.Deployments.Instances.{list_by_deployment}
use almichot_cloud.Deployments.Service.Outcome.{IsDispatched, schedule_and_dispatch-IsOutcome}
use almichot_cloud.Deployments.Service.Spared.{Spares, schedule_and_dispatch-Spared}

snapshot_quiet :
    (c : Collaborators) (project id : String) (s : Service)
    → ((snapshot c project id s).stops ≡ s.stops)
      × ((snapshot c project id s).router ≡ s.router)
      × ((snapshot c project id s).deployments ≡ s.deployments)
snapshot_quiet c project id s = elim (Option-cases c.secrets) [
  | inl e ↦ rw e (refl, refl, refl)
  | inr (get, e) ↦ elim (Bool-cases (str_eq project "")) [
    | inl b ↦ rw (e, b) (refl, refl, refl)
    | inr b ↦ rw (e, b) (refl, refl, refl)
  ]
]

begin_rollback-Spares :
    (c : Collaborators) (dep : Deployment) (rel : Release) (s : Service)
    → Spares (c.uuid s.draws) s (begin_rollback c dep rel s).svc
unfolding begin_rollback create_deployment
begin_rollback-Spares c dep rel s =
    let p =
      create_deployment c (restored (c.uuid s.draws) dep rel) (record s { draws = suc s.draws }) in
    let (stops, router, deployments) = snapshot_quiet c dep.project_id p.dep.id p.svc in
    record {
      stops = stops;
      routes = λ q j h. ap (has_target q j) router ∙ h;
      others = λ i ne.
          ap (lookup i) deployments
          ∙ lookup-insert (c.uuid s.draws) i p.dep s.deployments
          ∙ rw
              (let b : str_eq (c.uuid s.draws) i ≡ false =
                  ground (arith, eq_iff (c.uuid s.draws) i) in
                b)
              refl;
    }

Spares-trans : (id : String) (r s t : Service) → Spares id r s → Spares id s t → Spares id r t
Spares-trans id r s t a b = record {
  stops = b.stops ∙ a.stops;
  routes = λ q j h. b.routes q j (a.routes q j h);
  others = λ i ne. b.others i ne ∙ a.others i ne;
}

Spares-refl : (id : String) (s : Service) → Spares id s s
Spares-refl id s = record { stops = refl; routes = λ q j h. h; others = λ i ne. refl }

dispatch-Spares :
    (c : Collaborators) (dep : Deployment) (rel : Release) (s : Service)
    → let d =
        schedule_and_dispatch_instances c [] [] rel.image_digest rel.signature
          (begin_rollback c dep rel s) in
      Spares (c.uuid s.draws) s d.progress.svc
unfolding begin_rollback create_deployment
dispatch-Spares c dep rel s =
    let p = begin_rollback c dep rel s in
    Spares-trans (c.uuid s.draws) s p.svc _ (begin_rollback-Spares c dep rel s)
      (schedule_and_dispatch-Spared c [] [] rel.image_digest rel.signature p).spares

after_dispatch-error :
    (c : Collaborators) (dep : Deployment) (rel : Release) (p : Progress) (created : List Instance)
    → (o : Option ServiceError) (e : ServiceError)
    → (after_dispatch c dep rel p created o).0.error ≡ some e
    → (after_dispatch c dep rel p created o).1 ≡ p.svc
after_dispatch-error c dep rel p created (some x) e h = refl
after_dispatch-error c dep rel p created none e h = cc

restore-Spares :
    (c : Collaborators) (dep : Deployment) (s : Service) (o : Option Release) (e : ServiceError)
    → (restore c dep s o).0.error ≡ some e
    → Spares (c.uuid s.draws) s (restore c dep s o).1
restore-Spares c dep s none e h = Spares-refl (c.uuid s.draws) s
restore-Spares c dep s (some rel) e h =
    let d =
      schedule_and_dispatch_instances c [] [] rel.image_digest rel.signature
        (begin_rollback c dep rel s) in
    subst (Spares (c.uuid s.draws) s)
      (sym (after_dispatch-error c dep rel d.progress d.created d.error e h))
      (dispatch-Spares c dep rel s)

-- A Rollback that ends with an error has sent no stop request, every route is still there, and the
-- records of all deployments but the one that it tried to start are as they were: what ran before
-- still runs and is served.
pub rollback-Spares :
    (c : Collaborators) (id : String) (s : Service) (e : ServiceError)
    → (rollback c id s).0.error ≡ some e
    → Spares (c.uuid s.draws) s (rollback c id s).1
unfolding rollback Repository.get_by_id
rollback-Spares c id s e h = elim (Option-cases (lookup id s.deployments)) [
  | inl x ↦ rw x (Spares-refl (c.uuid s.draws) s)
  | inr (d, x) ↦ elim (Bool-cases (status_eq d.status rolled_back)) [
    | inl b ↦ rw (x, b) (Spares-refl (c.uuid s.draws) s)
    | inr b ↦ rw (x, b) (restore-Spares c d s _ e (rw (x, b) at h))
  ]
]

-- The deployment that comes back runs the release, and the old one is stored as ROLLED_BACK.
abbrev pub Restores : Deployment → Option Release → Answer → Service → Type 0
Restores old none a t = ⊥
Restores old (some rel) a t =
    (d : Deployment) × (a.dep ≡ some d)
    × (d.status ≡ running)
    × (d.image_digest ≡ rel.image_digest)
    × (rel.image_digest ≢ "")
    × (rel.deployment_id ≢ old.id)
    × HasStatus old.id rolled_back t

end_rollback-HasStatus :
    (c : Collaborators) (dep : Deployment) (new_id : String) (rel : Release) (s : Service)
    → lookup dep.id s.deployments ≡ some dep
    → HasStatus dep.id rolled_back (end_rollback c dep new_id rel s)
unfolding end_rollback record_event
end_rollback-HasStatus c dep new_id rel s at =
    let xs = list_by_deployment dep.id s.instances in
    set_status_of-HasStatus c.now dep.id rolled_back "ROLLED_BACK"
      (record { dep = dep; svc = stop_instances c dep.project_id xs s }) dep
      (ap (lookup dep.id) (stop_instances-deployments c dep.project_id xs s) ∙ at)

after_dispatch-Restores :
    (c : Collaborators) (dep : Deployment) (rel : Release) (p q : Progress) (n : ℕ)
    → (created : List Instance) (o : Option ServiceError) → IsDispatched p n q created o
    → q.dep.image_digest ≡ rel.image_digest
    → (rel.deployment_id ≢ dep.id) × (rel.image_digest ≢ "")
    → lookup dep.id q.svc.deployments ≡ some dep
    → (after_dispatch c dep rel q created o).0.error ≡ none
    → let (a, t) = after_dispatch c dep rel q created o in Restores dep (some rel) a t
after_dispatch-Restores c dep rel p q n created (some e) r g k at h = cc
after_dispatch-Restores c dep rel p q n created none (a, st, l, all) g (k, k') at h =
    (q.dep, refl, st, g, k', k, end_rollback-HasStatus c dep q.dep.id rel q.svc at)

restore-Restores :
    (c : Collaborators) (dep : Deployment) (s : Service) (o : Option Release)
    → IsFirst dep.id s.deployments (list_by_project dep.project_id s.releases) o
    → lookup dep.id s.deployments ≡ some dep
    → c.uuid s.draws ≢ dep.id
    → (restore c dep s o).0.error ≡ none
    → let (a, t) = restore c dep s o in Restores dep o a t
unfolding begin_rollback create_deployment validate_transition
restore-Restores c dep s none f at fresh h = cc
restore-Restores c dep s (some rel) (before, after, e, good, f) at fresh h =
    let p = begin_rollback c dep rel s in
    let d = schedule_and_dispatch_instances c [] [] rel.image_digest rel.signature p in
    after_dispatch-Restores c dep rel p d.progress _ d.created d.error
      (schedule_and_dispatch-IsOutcome c [] [] rel.image_digest rel.signature p refl)
      (schedule_and_dispatch-Spared c [] [] rel.image_digest rel.signature p).same_digest
      (good.another, good.digested) ((dispatch-Spares c dep rel s).others dep.id fresh ∙ at) h

-- Where Rollback of a stored deployment succeeds, there is a release that it restores: the first
-- of the project, in the order of the list, that has a digest, belongs to another deployment than
-- this one, and names no deployment that is stored as FAILED. The deployment that comes back is
-- RUNNING with that digest, and the old one is stored as ROLLED_BACK. The new ID is not that of
-- the old deployment.
pub rollback-Restores :
    (c : Collaborators) (id : String) (s : Service) (d : Deployment)
    → lookup id s.deployments ≡ some d
    → d.id ≡ id
    → c.uuid s.draws ≢ id
    → (rollback c id s).0.error ≡ none
    → let (a, t) = rollback c id s in
      let chosen = previous_release d.id s.deployments (list_by_project d.project_id s.releases) in
      IsFirst d.id s.deployments (list_by_project d.project_id s.releases) chosen
      × Restores d chosen a t
unfolding rollback Repository.get_by_id
rollback-Restores c id s d at same fresh h = elim (Bool-cases (status_eq d.status rolled_back)) [
  | inl b ↦ let refused_now = rw (at, b) at h in cc
  | inr b ↦
      let first =
        previous_release-IsFirst d.id s.deployments (list_by_project d.project_id s.releases) in
      (
        first,
        rw (at, b)
            (restore-Restores c d s _ first (ap (λ (k : String). lookup k s.deployments) same ∙ at)
              (λ e. fresh (e ∙ same)) (rw (at, b) at h)),
      )
]
