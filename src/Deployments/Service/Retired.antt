-- ===== src/Deployments/Service/Retired.antt =====
-- internal/deployments/service.go: what the loop that stops instances, of StopDeployment and of
-- Rollback, leaves.
use almichot_cloud.Prelude.{
  ℤ, String, ◌≡◌, ◌≢◌, refl, ap, ◌∙◌, false, ◌&&◌, Option, none, some, List, [], ◌∷◌, In, here,
  there, Result, ok, err, arith, eq_iff, eq_refl, str_eq, if◌then◌else◌, inl, inr, Bool-cases,
  Option-cases, lookup, lookup-insert_self,
}
use almichot_cloud.Workers.Model.{Worker}
use almichot_cloud.Workers.Registry
use almichot_cloud.Balancer.{Router}
use almichot_cloud.Balancer.Targets.{has_target, has_target-unregister}
use almichot_cloud.Deployments.Lifecycle.{Deployment, Instance, DeploymentStatus, stopped}
use almichot_cloud.Deployments.Repository.{update_status}
use almichot_cloud.Deployments.Repository
use almichot_cloud.Deployments.Instances.{list_by_deployment}
use almichot_cloud.Deployments.Service.{
  Collaborators, Service, Progress, WorkerClient, save_instance, set_status_of,
}
use almichot_cloud.Deployments.Service.Stopping.{
  send_stop, logged, stop_at, unroute, stop_instance, stop_instances, stop_deployment,
}
use almichot_cloud.Deployments.Service.History.{save_instance_keeps}

pub logged_keeps :
    (w : Worker) (x : Instance) (r : Result String WorkerClient) (s : Service)
    → ((logged w x r s).registry ≡ s.registry)
      × ((logged w x r s).router ≡ s.router)
      × ((logged w x r s).deployments ≡ s.deployments)
logged_keeps w x (ok client) s = (refl, refl, refl)
logged_keeps w x (err e) s = (refl, refl, refl)

stop_at_keeps :
    (c : Collaborators) (x : Instance) (o : Option Worker) (s : Service)
    → ((stop_at c x o s).registry ≡ s.registry)
      × ((stop_at c x o s).router ≡ s.router)
      × ((stop_at c x o s).deployments ≡ s.deployments)
stop_at_keeps c x none s = (refl, refl, refl)
stop_at_keeps c x (some w) s = logged_keeps w x (c.client w) s

-- A stop request touches neither the registry nor the routes.
pub send_stop_keeps :
    (c : Collaborators) (x : Instance) (s : Service)
    → ((send_stop c x s).registry ≡ s.registry)
      × ((send_stop c x s).router ≡ s.router)
      × ((send_stop c x s).deployments ≡ s.deployments)
unfolding send_stop
send_stop_keeps c x s = elim (Bool-cases (str_eq x.worker_id "")) [
  | inl b ↦ rw b (refl, refl, refl)
  | inr b ↦ rw b (stop_at_keeps c x (Registry.get x.worker_id s.registry) s)
]

stop_instance-deployments :
    (c : Collaborators) (project : String) (x : Instance) (s : Service)
    → (stop_instance c project x s).deployments ≡ s.deployments
unfolding stop_instance unroute save_instance
stop_instance-deployments c project x s = elim (Bool-cases (str_eq project "")) [
  | inl b ↦ rw b (send_stop_keeps c x s).2
  | inr b ↦ rw b (send_stop_keeps c x s).2
]

stop_instance-registry :
    (c : Collaborators) (project : String) (x : Instance) (s : Service)
    → (stop_instance c project x s).registry ≡ s.registry
unfolding stop_instance unroute save_instance
stop_instance-registry c project x s = elim (Bool-cases (str_eq project "")) [
  | inl b ↦ rw b (send_stop_keeps c x s).0
  | inr b ↦ rw b (send_stop_keeps c x s).0
]

pub has_target-unroute :
    (project i q j : String) (s : Service)
    → project ≢ ""
    → has_target q j (unroute project i s).router
      ≡ (if str_eq project q && str_eq i j then false else has_target q j s.router)
unfolding unroute
has_target-unroute project i q j s named =
    rw (let b : str_eq project "" ≡ false = ground (arith, eq_iff project "") in b)
      (has_target-unregister project q i j s.router)

-- After an instance was stopped it is out of its project's routes, and the rest is as before.
has_target-stop :
    (c : Collaborators) (project q j : String) (x : Instance) (s : Service)
    → project ≢ ""
    → has_target q j (stop_instance c project x s).router
      ≡ (if str_eq project q && str_eq x.id j then false else has_target q j s.router)
unfolding stop_instance save_instance
has_target-stop c project q j x s named =
    let marked : Instance = record x { status = "STOPPED" } in
    let s1 = send_stop c x s in
    let saved = save_instance c.now marked s1 in
    has_target-unroute project saved.0.id q j saved.1 named
    ∙ ap
        (λ (i : String).
          if str_eq project q && str_eq i j then false else has_target q j saved.1.router)
        (save_instance_keeps c.now marked s1).0
    ∙ ap (λ (r : Router). if str_eq project q && str_eq x.id j then false else has_target q j r)
        (send_stop_keeps c x s).1

-- The loop gives no worker its capacity back: the registry stays as it was.
pub stop_instances-registry :
    (c : Collaborators) (project : String) (xs : List Instance) (s : Service)
    → (stop_instances c project xs s).registry ≡ s.registry
unfolding stop_instances
stop_instances-registry c project [] s = refl
stop_instances-registry c project (x ∷ xs) s =
    stop_instances-registry c project xs (stop_instance c project x s)
    ∙ stop_instance-registry c project x s

-- The loop brings no route into being.
pub stop_instances_unrouted :
    (c : Collaborators) (project q j : String) (xs : List Instance) (s : Service)
    → project ≢ ""
    → has_target q j s.router ≡ false
    → has_target q j (stop_instances c project xs s).router ≡ false
unfolding stop_instances
stop_instances_unrouted c project q j [] s named h = h
stop_instances_unrouted c project q j (x ∷ xs) s named h =
    stop_instances_unrouted c project q j xs (stop_instance c project x s) named
      (ground (arith, has_target-stop c project q j x s named))

-- Every instance of the list is out of the routes, and no other project's routes have changed.
pub stop_instances-unroutes :
    (c : Collaborators) (project : String) (x : Instance) (xs : List Instance) (s : Service)
    → project ≢ ""
    → In x xs
    → has_target project x.id (stop_instances c project xs s).router ≡ false
unfolding stop_instances
stop_instances-unroutes c project x [] s named v = elim v [ ]
stop_instances-unroutes c project x (y ∷ ys) s named (here e) =
    stop_instances_unrouted c project project x.id ys (stop_instance c project y s) named (
      rw (has_target-stop c project project x.id y s named, ← e, eq_refl project, eq_refl x.id)
        refl)
stop_instances-unroutes c project x (y ∷ ys) s named (there v) =
    stop_instances-unroutes c project x ys (stop_instance c project y s) named v

pub stop_instances-other :
    (c : Collaborators) (project q j : String) (xs : List Instance) (s : Service)
    → project ≢ ""
    → project ≢ q
    → has_target q j (stop_instances c project xs s).router ≡ has_target q j s.router
unfolding stop_instances
stop_instances-other c project q j [] s named ne = refl
stop_instances-other c project q j (x ∷ xs) s named ne =
    stop_instances-other c project q j xs (stop_instance c project x s) named ne
    ∙ ground (arith, has_target-stop c project q j x s named, eq_iff project q)

abbrev pub HasStatus : String → DeploymentStatus → Service → Type 0
HasStatus id st s = (d : Deployment) × (lookup id s.deployments ≡ some d) × (d.status ≡ st)

pub set_status_of-HasStatus :
    (now : ℤ) (id : String) (st : DeploymentStatus) (stage : String) (p : Progress) (d : Deployment)
    → lookup id p.svc.deployments ≡ some d
    → HasStatus id st (set_status_of now id st stage p).svc
unfolding set_status_of update_status
set_status_of-HasStatus now id st stage p d at =
    rw at (_, lookup-insert_self id _ p.svc.deployments, refl)

pub stop_instances-deployments :
    (c : Collaborators) (project : String) (xs : List Instance) (s : Service)
    → (stop_instances c project xs s).deployments ≡ s.deployments
unfolding stop_instances
stop_instances-deployments c project [] s = refl
stop_instances-deployments c project (x ∷ xs) s =
    stop_instances-deployments c project xs (stop_instance c project x s)
    ∙ stop_instance-deployments c project x s

-- StopDeployment of a deployment that exists succeeds. The deployment is handed back as STOPPED, with
-- its ID and the desired state STOPPED, and is stored as STOPPED, and where it belongs to a project,
-- none of its instances is in the project's routes.
pub stop_deployment-retires :
    (c : Collaborators) (id : String) (s : Service) (d : Deployment)
    → lookup id s.deployments ≡ some d
    → let (a, t) = stop_deployment c id s in
      (a.error ≡ none)
      × ((x : Deployment) × (a.dep ≡ some x)
          × (x.id ≡ d.id)
          × (x.status ≡ stopped)
          × (x.desired_state ≡ "STOPPED"))
      × HasStatus id stopped t
      × ((x : Instance)
          → d.project_id ≢ ""
          → In x (list_by_deployment id s.instances)
          → has_target d.project_id x.id t.router ≡ false)
unfolding stop_deployment Repository.get_by_id set_status_of
stop_deployment-retires c id s d at =
    let xs = list_by_deployment id s.instances in
    let t = stop_instances c d.project_id xs s in
    rw at (
      refl,
      (_, refl, refl, refl, refl),
      set_status_of-HasStatus c.now id stopped "STOPPED" (record { dep = d; svc = t }) d
          (ap (lookup id) (stop_instances-deployments c d.project_id xs s) ∙ at),
      λ x named v. stop_instances-unroutes c d.project_id x xs s named v,
    )

-- StopDeployment changes no worker's load: the capacity that the instances took is not given back.
pub stop_deployment-registry :
    (c : Collaborators) (id : String) (s : Service)
    → (stop_deployment c id s).1.registry ≡ s.registry
unfolding stop_deployment Repository.get_by_id set_status_of
stop_deployment-registry c id s = elim (Option-cases (lookup id s.deployments)) [
  | inl e ↦ rw e refl
  | inr (d, e) ↦ rw e (stop_instances-registry c d.project_id (list_by_deployment id s.instances) s)
]
