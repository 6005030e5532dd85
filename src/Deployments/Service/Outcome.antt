-- ===== src/Deployments/Service/Outcome.antt =====
-- internal/deployments/service.go, scheduleAndDispatchInstances: how a dispatch ends, on every
-- branch.
use almichot_cloud.Prelude.{
  ℤ, pos_part, ℕ, ◌+◌, String, ◌≡◌, refl, ap, ◌∙◌, Option, none, some, List, [], arith, ◌⊎◌, inl,
  inr, length,
}
use almichot_cloud.Deployments.Lifecycle.{
  Instance, scheduling, starting, running, failed, validate_transition,
}
use almichot_cloud.Deployments.Service.{
  PortSpec, Collaborators, ServiceError, crashed, Progress, set_status, record_event,
}
use almichot_cloud.Deployments.Service.Dispatching.{
  Dispatched, start_instances, finish, finished, running_message, unless_crashed,
  schedule_and_dispatch_instances, container_ports, instance_count, with_label,
}
use almichot_cloud.Deployments.Service.History.{
  Advances, Advances-stay, Advances-trans, set_status-Advances,
}
use almichot_cloud.Deployments.Service.Rounds.{
  AllRunning, legal_from, IsEnd, IsRounds, IsEnd-from, start_instances-IsRounds,
}

-- A dispatch succeeds with as many running instances as the deployment asks for, or it fails the
-- deployment, or the crash hook cuts it off.
abbrev pub IsDispatched : Progress → ℕ → Progress → List Instance → Option ServiceError → Type 0
IsDispatched p n q created none =
    Advances p q × (q.dep.status ≡ running) × (length created ≡ n) × AllRunning created
IsDispatched p n q created (some e) =
    Advances p q × ((q.dep.status ≡ failed) ⊎ ((m : String) × (e ≡ crashed m)))

abbrev pub IsOutcome : Progress → ℕ → Dispatched → Type 0
IsOutcome p n d = IsDispatched p n d.progress d.created d.error

unless_crashed-IsOutcome :
    (p q : Progress) (n : ℕ) (created : List Instance) (o : Option String) (rest : Dispatched)
    → Advances p q
    → IsOutcome p n rest
    → IsOutcome p n (unless_crashed o q created rest)
unless_crashed-IsOutcome p q n created (some m) rest a h = (a, inr (m, refl))
unless_crashed-IsOutcome p q n created none rest a h = h

announced-IsOutcome :
    (p q r : Progress) (n : ℕ) (created : List Instance) (o : Option String)
    → Advances p q
    → q.dep.status ≡ running
    → r.dep ≡ q.dep
    → r.svc.writes ≡ q.svc.writes
    → length created ≡ n
    → AllRunning created
    → IsOutcome p n
        (unless_crashed o r created (record { progress = r; created = created; error = none }))
announced-IsOutcome p q r n created o a st d w l all =
    let there =
      Advances-trans p q r a (Advances-stay q r (ap (λ x. x.id) d) (ap (λ x. x.status) d) w) in
    unless_crashed-IsOutcome p r n created o
      (record { progress = r; created = created; error = none }) there
      (there, ap (λ x. x.status) d ∙ st, l, all)

finish-IsOutcome :
    (c : Collaborators) (p : Progress) (n : ℕ) (q : Progress) (created : List Instance)
    → (e : Option ServiceError) → p.dep.status ≡ starting
    → IsEnd p n q created e
    → IsOutcome p n (finish c q created e)
unfolding finish set_status record_event validate_transition
finish-IsOutcome c p n q created (some e) s (a, f) = (a, inl f)
finish-IsOutcome c p n q created none s (d, w, l, r') =
    let q1 = set_status c.now running "RUNNING" q in
    let r : Progress = record q1 {
      svc =
          record_event c q1.dep.project_id q1.dep.id "DEPLOYMENT_RUNNING"
            (running_message q1.dep.id (length created)) none q1.svc;
    } in
    let here = Advances-stay p q (ap (λ x. x.id) d) (ap (λ x. x.status) d) w in
    let runs =
      set_status-Advances c.now running "RUNNING" q
        (legal_from q.dep.status starting running (ap (λ x. x.status) d ∙ s) refl) in
    announced-IsOutcome p q1 r n created (c.crash_hook running) (Advances-trans p q q1 here runs)
      refl refl refl l r'

IsOutcome-from :
    (p p' : Progress) (n : ℕ) (q : Progress) (created : List Instance) (e : Option ServiceError)
    → Advances p p'
    → IsDispatched p' n q created e
    → IsDispatched p n q created e
IsOutcome-from p p' n q created none a (b, s, l, r) = (Advances-trans p p' q a b, s, l, r)
IsOutcome-from p p' n q created (some e) a (b, s) = (Advances-trans p p' q a b, s)

finished-IsOutcome :
    (c : Collaborators) (p p' : Progress) (n : ℕ) (d : Dispatched)
    → Advances p p'
    → p'.dep.status ≡ starting
    → IsRounds p' (0 + n) d
    → IsOutcome p n (finished c d)
finished-IsOutcome c p p' n d a s h =
    let r = finished c d in
    IsOutcome-from p p' n r.progress r.created r.error a (
      finish-IsOutcome c p' n d.progress d.created d.error s
        (IsEnd-from p' p' (0 + n) n d.progress d.created d.error refl refl (omega arith) h))

-- What a dispatch leaves, on every branch, of a deployment that may be scheduled: as many running
-- instances as it asks for, at least one, and the status RUNNING; or the status FAILED; or the crash
-- hook's error. The statuses that it writes on the way are legal changes.
pub schedule_and_dispatch-IsOutcome :
    (c : Collaborators) (ports : List PortSpec) (built_ports : List ℤ) (digest signature : String)
    → (p : Progress) → validate_transition p.dep.status scheduling ≡ none
    → IsOutcome p
        (pos_part (instance_count p.dep.instance_count))
        (schedule_and_dispatch_instances c ports built_ports digest signature p)
unfolding schedule_and_dispatch_instances container_ports set_status validate_transition
schedule_and_dispatch-IsOutcome c ports built_ports digest signature p v =
    let n = pos_part (instance_count p.dep.instance_count) in
    let p1 = set_status c.now scheduling "SCHEDULING" p in
    let (exposed, s) = container_ports c ports built_ports p1.svc in
    let q1 : Progress = record p1 { svc = s } in
    let p2 = set_status c.now starting "STARTING" q1 in
    let labels =
      with_label "nebula.signature" signature
        (with_label "nebula.image_digest" digest p.dep.labels) in
    let a1 = set_status-Advances c.now scheduling "SCHEDULING" p v in
    let a2 : Advances p q1 = Advances-trans p p1 q1 a1 (Advances-stay p1 q1 refl refl refl) in
    let a3 : Advances p p2 =
      Advances-trans p q1 p2 a2 (set_status-Advances c.now starting "STARTING" q1 refl) in
    let started_all = start_instances c exposed labels n 0 [] p2 in
    unless_crashed-IsOutcome p p1 n [] (c.crash_hook scheduling) _ a1 (
      unless_crashed-IsOutcome p p2 n [] (c.crash_hook starting) (finished c started_all) a3 (
        finished-IsOutcome c p p2 n started_all a3 refl
          (start_instances-IsRounds c exposed labels n 0 [] p2 refl tt)))
