-- ===== src/Deployments/Service/Spared.antt =====
-- internal/deployments/service.go, scheduleAndDispatchInstances: what a dispatch leaves alone. It
-- stops no container, takes no route away, and writes to no other deployment.
use almichot_cloud.Prelude.{
  ℤ, ℕ, zero, suc, String, ◌≡◌, ◌≢◌, refl, sym, ap, ◌∙◌, true, Option, none, some, List, [], ◌∷◌,
  ◌++◌, Map, Result, ok, err, arith, eq_iff, str_eq, inl, inr, Bool-cases, Option-cases, lookup,
  lookup-insert, lookup-insert_self, length, pos_part,
}
use almichot_cloud.Workers.Model.{Worker}
use almichot_cloud.Scheduler.Select.{SelectError}
use almichot_cloud.Balancer.{Router, register_target, with_scheme}
use almichot_cloud.Balancer.Targets.{has_target, has_target-add}
use almichot_cloud.Deployments.Lifecycle.{
  Deployment, Instance, DeploymentStatus, scheduling, starting, running,
}
use almichot_cloud.Deployments.Repository.{with_status, update_status}
use almichot_cloud.Deployments.Service.{
  PortSpec, Collaborators, ServiceError, Service, Progress, WorkerClient, set_status, save_instance,
  record_event, or_same,
}
use almichot_cloud.Deployments.Service.Dispatching.{
  Dispatched, fail_start, after_run, run_on, start_on, instance_key, start_instance,
  start_instances, next_round, finish, unless_crashed, schedule_and_dispatch_instances, started,
  route_to, or_router, new_instance, place, container_ports, instance_count, run_error, with_label,
  container_of, log_run, run_request, running_message, app_port, finished,
}

pub record Spares (id : String) (s t : Service) : Type 0 where
  pub stops : t.stops ≡ s.stops
  pub routes : (q j : String) → has_target q j s.router ≡ true → has_target q j t.router ≡ true
  pub others : (i : String) → id ≢ i → lookup i t.deployments ≡ lookup i s.deployments

-- The deployment in hand is stored, with its status.
abbrev pub IsStored : Progress → Type 0
IsStored p =
    (d : Deployment) × (lookup p.dep.id p.svc.deployments ≡ some d) × (d.status ≡ p.dep.status)

-- The deployment in hand keeps its ID and its digest, and stays stored with its status; the rest
-- is spared.
pub record Spared (p q : Progress) : Type 0 where
  pub same_id : q.dep.id ≡ p.dep.id
  pub same_digest : q.dep.image_digest ≡ p.dep.image_digest
  pub stored : IsStored p → IsStored q
  pub spares : Spares p.dep.id p.svc q.svc

quiet :
    (p q : Progress)
    → q.dep ≡ p.dep
    → q.svc.stops ≡ p.svc.stops
    → q.svc.router ≡ p.svc.router
    → q.svc.deployments ≡ p.svc.deployments
    → Spared p q
quiet p q i s r d = record {
  same_id = ap (λ x. x.id) i;
  same_digest = ap (λ x. x.image_digest) i;
  stored = λ (x, l, st). (
    x,
    ap (λ (y : Deployment). lookup y.id q.svc.deployments) i ∙ ap (lookup p.dep.id) d ∙ l,
    st ∙ sym (ap (λ y. y.status) i),
  );
  spares = record {
    stops = s;
    routes = λ a b h. ap (has_target a b) r ∙ h;
    others = λ k ne. ap (lookup k) d;
  };
}

pub Spared-trans : (p q r : Progress) → Spared p q → Spared q r → Spared p r
Spared-trans p q r a b = record {
  same_id = b.same_id ∙ a.same_id;
  same_digest = b.same_digest ∙ a.same_digest;
  stored = λ h. b.stored (a.stored h);
  spares = record {
    stops = b.spares.stops ∙ a.spares.stops;
    routes = λ x y h. b.spares.routes x y (a.spares.routes x y h);
    others = λ i ne. b.spares.others i (λ e. ne (sym a.same_id ∙ e)) ∙ a.spares.others i ne;
  };
}

-- A change of one record leaves the others.
lookup-update_status :
    (now : ℤ) (id i : String) (st : DeploymentStatus) (stage : String) (m : Map Deployment)
    → id ≢ i
    → lookup i (or_same m (update_status now id st stage m)) ≡ lookup i m
unfolding update_status
lookup-update_status now id i st stage m ne = elim (Option-cases (lookup id m)) [
  | inl e ↦ rw e refl
  | inr (d, e) ↦
      rw e (ground (arith, lookup-insert id i (with_status now st stage d) m, eq_iff id i))
]

set_status-IsStored :
    (now : ℤ) (st : DeploymentStatus) (stage : String) (p : Progress)
    → IsStored p
    → IsStored (set_status now st stage p)
unfolding set_status update_status
set_status-IsStored now st stage p (d, l, e) =
    rw l (_, lookup-insert_self p.dep.id _ p.svc.deployments, refl)

pub set_status-Spared :
    (now : ℤ) (st : DeploymentStatus) (stage : String) (p : Progress)
    → Spared p (set_status now st stage p)
unfolding set_status
set_status-Spared now st stage p = record {
  same_id = refl;
  same_digest = refl;
  stored = set_status-IsStored now st stage p;
  spares = record {
    stops = refl;
    routes = λ x y h. h;
    others = λ i ne. lookup-update_status now p.dep.id i st stage p.svc.deployments ne;
  };
}

fail_start-Spared :
    (c : Collaborators) (x : Instance) (stage : String) (e : ServiceError) (p : Progress)
    → Spared p (fail_start c x stage e p).0
unfolding fail_start save_instance
fail_start-Spared c x stage e p =
    let q : Progress = record p {
      svc = (save_instance c.now (record x { status = "FAILED" }) p.svc).1;
    } in
    Spared-trans p q (fail_start c x stage e p).0 (quiet p q refl refl refl refl)
      (set_status-Spared c.now _ stage q)

has_target-register :
    (parse : String → Option String) (project id url q j : String) (r : Router)
    → has_target q j r ≡ true
    → has_target q j (or_router r (register_target parse project id url r)) ≡ true
unfolding register_target
has_target-register parse project id url q j r h = elim (Option-cases (parse (with_scheme url))) [
  | inl e ↦ rw e h
  | inr (u, e) ↦ rw e (ground (arith, has_target-add project q id j u r))
]

route_to-Spared :
    (c : Collaborators) (project id ip host : String) (port : ℤ) (p : Progress)
    → Spared p (record p { svc = route_to c project id ip host port p.svc })
unfolding route_to
route_to-Spared c project id ip host port p = elim (Bool-cases (str_eq project "")) [
  | inl b ↦ rw b (quiet p p refl refl refl refl)
  | inr b ↦ rw b (record {
    same_id = refl;
    same_digest = refl;
    stored = λ h. h;
    spares = record {
      stops = refl;
      routes = λ q j h. has_target-register c.parse project id _ q j p.svc.router h;
      others = λ i ne. refl;
    };
  })
]

pub started-Spared :
    (c : Collaborators) (x : Instance) (w : Worker) (id project host : String) (port : ℤ)
    (p : Progress)
    → Spared p (record p { svc = (started c x w id project host port p.svc).1 })
unfolding started save_instance
started-Spared c x w id project host port p =
    let run : Instance = record x { worker_id = w.id; container_id = id; status = "RUNNING" } in
    let (x', s') = save_instance c.now run p.svc in
    let q : Progress = record p { svc = s' } in
    let r : Progress = record q { svc = route_to c project x'.id w.ip_address host port s' } in
    let t : Progress = record p { svc = (started c x w id project host port p.svc).1 } in
    Spared-trans p q t (quiet p q refl refl refl refl) (
      Spared-trans q r t (route_to-Spared c project x'.id w.ip_address host port q)
        (quiet r t refl refl refl refl))

after_run-Spared :
    (c : Collaborators) (ports : List PortSpec) (x : Instance) (w : Worker) (id : String)
    → (o : Option String) (p : Progress) → Spared p (after_run c ports x w id o p).0
after_run-Spared c ports x w id (some m) p = fail_start-Spared c x _ _ p
after_run-Spared c ports x w id none p =
    started-Spared c x w id p.dep.project_id "localhost" (app_port ports) p

run_on-Spared :
    (c : Collaborators) (ports : List PortSpec) (labels : Map String) (x : Instance) (w : Worker)
    → (r : Result String WorkerClient) (p : Progress) → Spared p (run_on c ports labels x w r p).0
run_on-Spared c ports labels x w (err e) p = fail_start-Spared c x _ _ p
run_on-Spared c ports labels x w (ok client) p =
    let req = run_request c ports labels x p.dep in
    let q : Progress = record p { svc = log_run w req p.svc } in
    let answer = client.run_container req in
    Spared-trans p q (after_run c ports x w (container_of answer) (run_error answer) q).0
      (quiet p q refl refl refl refl)
      (after_run-Spared c ports x w (container_of answer) (run_error answer) q)

start_on-Spared :
    (c : Collaborators) (ports : List PortSpec) (labels : Map String) (x : Instance)
    → (r : Result SelectError Worker) (p : Progress) → Spared p (start_on c ports labels x r p).0
start_on-Spared c ports labels x (err e) p = fail_start-Spared c x _ _ p
start_on-Spared c ports labels x (ok w) p = run_on-Spared c ports labels x w (c.client w) p

start_instance-Spared :
    (c : Collaborators) (ports : List PortSpec) (labels : Map String) (i : ℕ) (p : Progress)
    → Spared p (start_instance c ports labels i p).0
unfolding start_instance new_instance
start_instance-Spared c ports labels i p =
    let (x, t) = new_instance c p.dep.id (instance_key p.dep.id i) p.svc in
    let q : Progress = record p { svc = t } in
    Spared-trans p q (start_on c ports labels x (place c p.dep t) q).0
      (quiet p q refl refl refl refl) (start_on-Spared c ports labels x (place c p.dep t) q)

next_round-Spared :
    (p : Progress) (created : List Instance) (rest : Instance → Progress → Dispatched)
    → (r : Progress × Result ServiceError Instance) → Spared p r.0
    → ((x : Instance) (q : Progress) → Spared q (rest x q).progress)
    → Spared p (next_round created rest r).progress
next_round-Spared p created rest (q, err e) h next = h
next_round-Spared p created rest (q, ok x) h next =
    Spared-trans p q (rest x q).progress h (next x q)

start_instances-Spared :
    (c : Collaborators) (ports : List PortSpec) (labels : Map String) (rounds i : ℕ)
    → (created : List Instance) (p : Progress)
    → Spared p (start_instances c ports labels rounds i created p).progress
unfolding start_instances
start_instances-Spared c ports labels zero i created p = quiet p p refl refl refl refl
start_instances-Spared c ports labels (suc rounds) i created p =
    next_round-Spared p created
      (λ x q. start_instances c ports labels rounds (suc i) (created ++ x ∷ []) q)
      (start_instance c ports labels i p) (start_instance-Spared c ports labels i p)
      (λ x q. start_instances-Spared c ports labels rounds (suc i) (created ++ x ∷ []) q)

unless_crashed-Spared :
    (p q : Progress) (created : List Instance) (o : Option String) (rest : Dispatched)
    → Spared p q
    → Spared p rest.progress
    → Spared p (unless_crashed o q created rest).progress
unless_crashed-Spared p q created (some m) rest h k = h
unless_crashed-Spared p q created none rest h k = k

finish-Spared :
    (c : Collaborators) (p : Progress) (created : List Instance) (e : Option ServiceError)
    → Spared p (finish c p created e).progress
unfolding finish set_status record_event
finish-Spared c p created (some e) = quiet p p refl refl refl refl
finish-Spared c p created none =
    let q = set_status c.now running "RUNNING" p in
    let r : Progress = record q {
      svc =
          record_event c q.dep.project_id q.dep.id "DEPLOYMENT_RUNNING"
            (running_message q.dep.id (length created)) none q.svc;
    } in
    let h =
      Spared-trans p q r (set_status-Spared c.now running "RUNNING" p)
        (quiet q r refl refl refl refl) in
    unless_crashed-Spared p r created (c.crash_hook running) _ h h

-- Whatever the outcome of a dispatch, it stops no container, takes no route away, and leaves the
-- records of all other deployments as they were.
pub schedule_and_dispatch-Spared :
    (c : Collaborators) (ports : List PortSpec) (built_ports : List ℤ) (digest signature : String)
    → (p : Progress)
    → Spared p (schedule_and_dispatch_instances c ports built_ports digest signature p).progress
unfolding schedule_and_dispatch_instances container_ports set_status
schedule_and_dispatch-Spared c ports built_ports digest signature p =
    let p1 = set_status c.now scheduling "SCHEDULING" p in
    let (exposed, s) = container_ports c ports built_ports p1.svc in
    let q1 : Progress = record p1 { svc = s } in
    let p2 = set_status c.now starting "STARTING" q1 in
    let labels =
      with_label "nebula.signature" signature
        (with_label "nebula.image_digest" digest p.dep.labels) in
    let n = pos_part (instance_count p.dep.instance_count) in
    let d = start_instances c exposed labels n 0 [] p2 in
    let a1 = set_status-Spared c.now scheduling "SCHEDULING" p in
    let a2 =
      Spared-trans p q1 p2 (Spared-trans p p1 q1 a1 (quiet p1 q1 refl refl refl refl))
        (set_status-Spared c.now starting "STARTING" q1) in
    let a3 = Spared-trans p p2 d.progress a2 (start_instances-Spared c exposed labels n 0 [] p2) in
    unless_crashed-Spared p p1 [] (c.crash_hook scheduling) _ a1 (
      unless_crashed-Spared p p2 [] (c.crash_hook starting) (finished c d) a2 (
        Spared-trans p d.progress (finished c d).progress a3
          (finish-Spared c d.progress d.created d.error)))
