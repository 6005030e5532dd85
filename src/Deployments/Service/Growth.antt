-- ===== src/Deployments/Service/Growth.antt =====
-- internal/deployments/service.go, ScaleDeployment: one round of the loop that adds replicas.
use almichot_cloud.Prelude.{
  ℤ, ℕ, String, ◌≡◌, ◌≢◌, refl, sym, ap, ◌∙◌, true, Option, none, some, Result, ok, err, str_eq,
  inl, inr, Bool-cases,
}
use almichot_cloud.Workers.Model.{Worker}
use almichot_cloud.Scheduler.Select.{SelectError}
use almichot_cloud.Balancer.Targets.{has_target}
use almichot_cloud.Deployments.Lifecycle.{Deployment, Instance}
use almichot_cloud.Deployments.Service.{
  Collaborators, ServiceError, Service, Progress, WorkerClient, save_instance,
}
use almichot_cloud.Deployments.Service.Dispatching.{new_instance, place, started, route_to}
use almichot_cloud.Deployments.Service.Scaling.{
  Added, fail_replica, replica_ran, run_replica, place_replica, add_replica, replica_key,
}
use almichot_cloud.Deployments.Service.History.{save_instance_keeps}
use almichot_cloud.Deployments.Service.Spared.{started-Spared}

-- No stop request is sent and no route is lost.
pub record IsGrown (s t : Service) : Type 0 where
  pub stops : t.stops ≡ s.stops
  pub routes : (q j : String) → has_target q j s.router ≡ true → has_target q j t.router ≡ true

pub IsGrown-refl : (s : Service) → IsGrown s s
IsGrown-refl s = record { stops = refl; routes = λ q j h. h }

pub IsGrown-trans : (r s t : Service) → IsGrown r s → IsGrown s t → IsGrown r t
IsGrown-trans r s t a b = record {
  stops = b.stops ∙ a.stops;
  routes = λ q j h. b.routes q j (a.routes q j h);
}

pub quiet : (s t : Service) → t.stops ≡ s.stops → t.router ≡ s.router → IsGrown s t
quiet s t a b = record { stops = a; routes = λ q j h. ap (has_target q j) b ∙ h }

-- A round: the state has only grown, no deployment is written, and a replica that it gives is
-- RUNNING.
pub record IsAdded (s : Service) (r : Added) : Type 0 where
  pub grown : IsGrown s r.0
  pub same : r.0.deployments ≡ s.deployments
  pub runs : (x : Instance) → r.1 ≡ ok x → x.status ≡ "RUNNING"

IsAdded-after :
    (s t : Service) (r : Added)
    → IsGrown s t
    → t.deployments ≡ s.deployments
    → IsAdded t r
    → IsAdded s r
IsAdded-after s t r g d h = record {
  grown = IsGrown-trans s t r.0 g h.grown;
  same = h.same ∙ d;
  runs = h.runs;
}

fail_replica-IsAdded :
    (c : Collaborators) (x : Instance) (e : ServiceError) (s : Service)
    → IsAdded s (fail_replica c x e s)
unfolding fail_replica save_instance
fail_replica-IsAdded c x e s = record {
  grown = quiet s _ refl refl;
  same = refl;
  runs = λ y k. absurd (err-ok y k refl);
}
  where
    err-ok : (y : Instance) → err e ≡ ok y → e ≢ e
    err-ok y k = cc

started-deployments :
    (c : Collaborators) (x : Instance) (w : Worker) (id project host : String) (port : ℤ)
    (s : Service)
    → (started c x w id project host port s).1.deployments ≡ s.deployments
unfolding started save_instance route_to
started-deployments c x w id project host port s = elim (Bool-cases (str_eq project "")) [
  | inl b ↦ rw b refl
  | inr b ↦ rw b refl
]

started-status :
    (c : Collaborators) (x : Instance) (w : Worker) (id project host : String) (port : ℤ)
    (s : Service)
    → (started c x w id project host port s).0.status ≡ "RUNNING"
unfolding started
started-status c x w id project host port s =
    (save_instance_keeps c.now
      (record x { worker_id = w.id; container_id = id; status = "RUNNING" }) s).1

replica_ran-IsAdded :
    (c : Collaborators) (dep : Deployment) (x : Instance) (w : Worker) (port : ℤ) (id : String)
    → (o : Option String) (s : Service) → IsAdded s (replica_ran c dep x w port id o s)
replica_ran-IsAdded c dep x w port id (some m) s = fail_replica-IsAdded c x _ s
replica_ran-IsAdded c dep x w port id none s =
    let p : Progress = record { dep = dep; svc = s } in
    let spared = (started-Spared c x w id dep.project_id "127.0.0.1" port p).spares in
    record {
      grown = record { stops = spared.stops; routes = spared.routes };
      same = started-deployments c x w id dep.project_id "127.0.0.1" port s;
      runs = λ y k.
          ap (λ (i : Instance). i.status) (sym (ok-inj y k))
          ∙ started-status c x w id dep.project_id "127.0.0.1" port s;
    }
  where
    ok-inj :
        (y : Instance)
        → (replica_ran c dep x w port id none s).1 ≡ ok y
        → (started c x w id dep.project_id "127.0.0.1" port s).0 ≡ y
    ok-inj y k = cc

run_replica-IsAdded :
    (c : Collaborators) (dep : Deployment) (x : Instance) (w : Worker)
    → (r : Result String WorkerClient) (s : Service) → IsAdded s (run_replica c dep x w r s)
run_replica-IsAdded c dep x w (err e) s = fail_replica-IsAdded c x _ s
run_replica-IsAdded c dep x w (ok client) s =
    IsAdded-after s _ _ (quiet s _ refl refl) refl (replica_ran-IsAdded c dep x w _ _ _ _)

place_replica-IsAdded :
    (c : Collaborators) (dep : Deployment) (x : Instance) (r : Result SelectError Worker)
    (s : Service)
    → IsAdded s (place_replica c dep x r s)
place_replica-IsAdded c dep x (err e) s = fail_replica-IsAdded c x _ s
place_replica-IsAdded c dep x (ok w) s = run_replica-IsAdded c dep x w (c.client w) s

pub add_replica-IsAdded :
    (c : Collaborators) (dep : Deployment) (index : ℕ) (s : Service)
    → IsAdded s (add_replica c dep index s)
unfolding add_replica new_instance
add_replica-IsAdded c dep index s =
    let (x, t) = new_instance c dep.id (replica_key c.now dep.id index) s in
    IsAdded-after s t (place_replica c dep x (place c dep t) t) (quiet s t refl refl) refl
      (place_replica-IsAdded c dep x (place c dep t) t)
