-- ===== src/Deployments/Service/Rounds.antt =====
-- internal/deployments/service.go, scheduleAndDispatchInstances: the loop over the instances.
use almichot_cloud.Prelude.{
  ℤ, ℕ, zero, suc, ◌+◌, String, ◌≡◌, refl, ap, ◌∙◌, Option, none, some, List, [], ◌∷◌, ◌++◌, Map,
  Result, ok, err, arith, inl, inr, length, length-append, Bool-cases, str_eq,
}
use almichot_cloud.Workers.Model.{Worker}
use almichot_cloud.Scheduler.Select.{SelectError}
use almichot_cloud.Deployments.Lifecycle.{
  Instance, DeploymentStatus, starting, failed, validate_transition,
}
use almichot_cloud.Deployments.Service.{
  PortSpec, Collaborators, ServiceError, Service, Progress, WorkerClient, set_status, save_instance,
}
use almichot_cloud.Deployments.Service.Dispatching.{
  Dispatched, fail_start, start_under, instance_key, after_run, run_on, start_on, start_instance,
  start_instances, next_round, started, route_to, new_instance, place, run_error, container_of,
  log_run, run_request,
}
use almichot_cloud.Deployments.Service.History.{
  Advances, Advances-stay, Advances-trans, set_status-Advances, save_instance_keeps,
}

abbrev pub AllRunning : List Instance → Type 0
AllRunning [] = Unit {0}
AllRunning (x ∷ xs) = (x.status ≡ "RUNNING") × AllRunning xs

-- A round either leaves the deployment alone and hands back a running instance, or fails it.
abbrev pub IsRound : Progress → Progress × Result ServiceError Instance → Type 0
IsRound p (q, ok x) = (q.dep ≡ p.dep) × (q.svc.writes ≡ p.svc.writes) × (x.status ≡ "RUNNING")
IsRound p (q, err e) = Advances p q × (q.dep.status ≡ failed)

pub IsRound-from :
    (p p' : Progress) (r : Progress × Result ServiceError Instance)
    → p'.dep ≡ p.dep
    → p'.svc.writes ≡ p.svc.writes
    → IsRound p' r
    → IsRound p r
IsRound-from p p' (q, ok x) d w (a, b, c) = (a ∙ d, b ∙ w, c)
IsRound-from p p' (q, err e) d w (a, b) =
    (Advances-trans p p' q (Advances-stay p p' (ap (λ x. x.id) d) (ap (λ x. x.status) d) w) a, b)

pub legal_from :
    (s t u : DeploymentStatus)
    → s ≡ t
    → validate_transition t u ≡ none
    → validate_transition s u ≡ none
legal_from s t u e v = rw e v

pub fail_start-IsRound :
    (c : Collaborators) (x : Instance) (stage : String) (e : ServiceError) (p : Progress)
    → p.dep.status ≡ starting
    → IsRound p (fail_start c x stage e p)
unfolding fail_start set_status validate_transition
fail_start-IsRound c x stage e p s =
    let saved = save_instance c.now (record x { status = "FAILED" }) p.svc in
    let q : Progress = record p { svc = saved.1 } in
    (
      Advances-trans p q _ (Advances-stay p q refl refl refl) (
          set_status-Advances c.now failed stage q
            (legal_from q.dep.status starting failed s refl)),
      refl,
    )

pub route_to-writes :
    (c : Collaborators) (project id ip host : String) (port : ℤ) (s : Service)
    → (route_to c project id ip host port s).writes ≡ s.writes
unfolding route_to
route_to-writes c project id ip host port s = elim (Bool-cases (str_eq project "")) [
  | inl b ↦ rw b refl
  | inr b ↦ rw b refl
]

pub started_keeps :
    (c : Collaborators) (x : Instance) (w : Worker) (id project host : String) (port : ℤ)
    (s : Service)
    → ((started c x w id project host port s).0.status ≡ "RUNNING")
      × ((started c x w id project host port s).1.writes ≡ s.writes)
unfolding started
started_keeps c x w id project host port s =
    let run : Instance = record x { worker_id = w.id; container_id = id; status = "RUNNING" } in
    let (x', s') = save_instance c.now run s in
    ((save_instance_keeps c.now run s).1, route_to-writes c project x'.id w.ip_address host port s')

pub after_run-IsRound :
    (c : Collaborators) (ports : List PortSpec) (x : Instance) (w : Worker) (id : String)
    → (o : Option String) (p : Progress) → p.dep.status ≡ starting
    → IsRound p (after_run c ports x w id o p)
after_run-IsRound c ports x w id (some m) p s = fail_start-IsRound c x _ _ p s
after_run-IsRound c ports x w id none p s =
    let (r, k) = started_keeps c x w id p.dep.project_id "localhost" _ p.svc in (refl, k, r)

pub run_on-IsRound :
    (c : Collaborators) (ports : List PortSpec) (labels : Map String) (x : Instance) (w : Worker)
    → (r : Result String WorkerClient) (p : Progress) → p.dep.status ≡ starting
    → IsRound p (run_on c ports labels x w r p)
run_on-IsRound c ports labels x w (err e) p s = fail_start-IsRound c x _ _ p s
run_on-IsRound c ports labels x w (ok client) p s =
    let req = run_request c ports labels x p.dep in
    let q : Progress = record p { svc = log_run w req p.svc } in
    let answer = client.run_container req in
    IsRound-from p q _ refl refl
      (after_run-IsRound c ports x w (container_of answer) (run_error answer) q s)

pub start_on-IsRound :
    (c : Collaborators) (ports : List PortSpec) (labels : Map String) (x : Instance)
    → (r : Result SelectError Worker) (p : Progress) → p.dep.status ≡ starting
    → IsRound p (start_on c ports labels x r p)
start_on-IsRound c ports labels x (err e) p s = fail_start-IsRound c x _ _ p s
start_on-IsRound c ports labels x (ok w) p s = run_on-IsRound c ports labels x w (c.client w) p s

pub start_under-IsRound :
    (c : Collaborators) (ports : List PortSpec) (labels : Map String) (x : Instance) (s : Service)
    → (p : Progress) → s.writes ≡ p.svc.writes
    → p.dep.status ≡ starting
    → IsRound p (start_under c ports labels (x, s) p)
start_under-IsRound c ports labels x s p w st =
    let q : Progress = record p { svc = s } in
    IsRound-from p q _ refl w (start_on-IsRound c ports labels x (place c p.dep s) q st)

pub start_instance-IsRound :
    (c : Collaborators) (ports : List PortSpec) (labels : Map String) (i : ℕ) (p : Progress)
    → p.dep.status ≡ starting
    → IsRound p (start_instance c ports labels i p)
unfolding start_instance new_instance
start_instance-IsRound c ports labels i p s =
    let (x, t) = new_instance c p.dep.id (instance_key p.dep.id i) p.svc in
    start_under-IsRound c ports labels x t p refl s

pub AllRunning-append :
    (xs : List Instance) (x : Instance)
    → AllRunning xs
    → x.status ≡ "RUNNING"
    → AllRunning (xs ++ x ∷ [])
AllRunning-append [] x a r = (r, tt)
AllRunning-append (y ∷ ys) x (b, a) r = (b, AllRunning-append ys x a r)

-- The rounds either all succeed and leave the deployment alone, or fail it.
abbrev pub IsEnd : Progress → ℕ → Progress → List Instance → Option ServiceError → Type 0
IsEnd p n q created none =
    (q.dep ≡ p.dep) × (q.svc.writes ≡ p.svc.writes) × (length created ≡ n) × AllRunning created
IsEnd p n q created (some e) = Advances p q × (q.dep.status ≡ failed)

abbrev pub IsRounds : Progress → ℕ → Dispatched → Type 0
IsRounds p n d = IsEnd p n d.progress d.created d.error

pub IsEnd-from :
    (p p' : Progress) (n m : ℕ) (q : Progress) (created : List Instance) (e : Option ServiceError)
    → p'.dep ≡ p.dep
    → p'.svc.writes ≡ p.svc.writes
    → n ≡ m
    → IsEnd p' n q created e
    → IsEnd p m q created e
IsEnd-from p p' n m q created none d w nm (a, b, l, r) = (a ∙ d, b ∙ w, l ∙ nm, r)
IsEnd-from p p' n m q created (some e) d w nm (a, b) =
    (Advances-trans p p' q (Advances-stay p p' (ap (λ x. x.id) d) (ap (λ x. x.status) d) w) a, b)

pub next_round-IsRounds :
    (p : Progress) (n : ℕ) (created : List Instance) (rest : Instance → Progress → Dispatched)
    → (r : Progress × Result ServiceError Instance) → p.dep.status ≡ starting
    → IsRound p r
    → ((x : Instance) (q : Progress)
        → q.dep.status ≡ starting
        → x.status ≡ "RUNNING"
        → IsRounds q (length (created ++ x ∷ []) + n) (rest x q))
    → IsRounds p (length created + suc n) (next_round created rest r)
next_round-IsRounds p n created rest (q, err e) s v next = v
next_round-IsRounds p n created rest (q, ok x) s (d, w, r) next =
    IsEnd-from p q (length (created ++ x ∷ []) + n) _ (rest x q).progress (rest x q).created
      (rest x q).error d w (omega (arith, length-append created (x ∷ [])))
      (next x q (ap (λ y. y.status) d ∙ s) r)

pub start_instances-IsRounds :
    (c : Collaborators) (ports : List PortSpec) (labels : Map String) (rounds i : ℕ)
    → (created : List Instance) (p : Progress) → p.dep.status ≡ starting
    → AllRunning created
    → IsRounds p (length created + rounds) (start_instances c ports labels rounds i created p)
unfolding start_instances
start_instances-IsRounds c ports labels zero i created p s a = (refl, refl, omega arith, a)
start_instances-IsRounds c ports labels (suc rounds) i created p s a =
    next_round-IsRounds p rounds created _ (start_instance c ports labels i p) s
      (start_instance-IsRound c ports labels i p s)
      (λ x q t r.
        start_instances-IsRounds c ports labels rounds (suc i) (created ++ x ∷ []) q t
          (AllRunning-append created x a r))
