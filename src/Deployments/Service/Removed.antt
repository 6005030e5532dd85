-- ===== src/Deployments/Service/Removed.antt =====
-- internal/deployments/service.go, ScaleDeployment: the whole loop that removes replicas.
use mathlib.Core.List.{append_assoc, append-nil}
use almichot_cloud.Prelude.{
  String, ◌≡◌, ◌≢◌, refl, sym, ap, ◌∙◌, false, ◌&&◌, List, [], ◌∷◌, ◌++◌, In, here, there,
  In-append_left, In-append_right, In-append_cases, ok, arith, eq_iff, eq_refl, str_eq,
  if◌then◌else◌, inl, inr,
}
use almichot_cloud.Workers.Model.{Worker}
use almichot_cloud.Balancer.Targets.{has_target}
use almichot_cloud.Deployments.Lifecycle.{Instance}
use almichot_cloud.Deployments.Service.{Collaborators, Service, Stop, WorkerClient}
use almichot_cloud.Deployments.Service.Scaling.{remove_replica, remove_replicas}
use almichot_cloud.Deployments.Service.Removal.{
  HasWorker, IsMarked, remove_replica-deployments, has_target-remove, remove_replica-Released,
  remove_replica-marks,
}

-- What the removal of the instances of a list makes of a state: no other route has changed; their
-- routes are gone; whatever is stored under their IDs is STOPPED; no route and no other status
-- has come back; and each stop request is for one of them, and each one whose worker is
-- registered has got one, where every worker can be reached.
pub record IsRemoved (c : Collaborators) (project : String) (gone : List Instance) (s t : Service)
    : Type 0 where
  pub marked : (x : Instance) → In x gone → IsMarked x.id t.instances
  pub marks_stay : (j : String) → IsMarked j s.instances → IsMarked j t.instances
  pub unrouted :
      (x : Instance) → project ≢ "" → In x gone → has_target project x.id t.router ≡ false
  pub unrouted_stays :
      (q j : String)
      → project ≢ ""
      → has_target q j s.router ≡ false
      → has_target q j t.router ≡ false
  pub other_routes :
      (q j : String)
      → project ≢ ""
      → ((x : Instance) → In x gone → x.id ≢ j)
      → has_target q j t.router ≡ has_target q j s.router
  pub log : List Stop
  pub appended : t.stops ≡ s.stops ++ log
  pub own : (r : Stop) → In r log → (x : Instance) × In x gone × (r.instance_id ≡ x.instance_key)
  pub sent :
      (x : Instance) (key : String)
      → In x gone
      → x.worker_id ≢ ""
      → HasWorker x.worker_id key s.registry
      → ((w : Worker) → (client : WorkerClient) × (c.client w ≡ ok client))
      → In (record { worker_key = key; instance_id = x.instance_key }) log

nothing-IsRemoved :
    (c : Collaborators) (project : String) (s : Service) → IsRemoved c project [] s s
nothing-IsRemoved c project s = record {
  marked = λ x v. elim v [ ];
  marks_stay = λ j m. m;
  unrouted = λ x n v. elim v [ ];
  unrouted_stays = λ q j n h. h;
  other_routes = λ q j n h. refl;
  log = [];
  appended = sym (append-nil s.stops);
  own = λ r v. elim v [ ];
  sent = λ x key v n has client. elim v [ ];
}

next-IsRemoved :
    (c : Collaborators) (project : String) (x : Instance) (xs : List Instance) (s t : Service)
    → IsRemoved c project xs (remove_replica c project x s) t
    → IsRemoved c project (x ∷ xs) s t
next-IsRemoved c project x xs s t rest =
    let one = remove_replica-Released c project x s in
    record {
      marked = mark;
      marks_stay = λ j m. rest.marks_stay j (remove_replica-marks c project x s j (inr m));
      unrouted = unroute_all;
      unrouted_stays = λ q j n h.
          rest.unrouted_stays q j n (ground (arith, has_target-remove c project q j x s n));
      other_routes = λ q j n h.
          rest.other_routes q j n (λ y v. h y (there v))
          ∙ has_target-remove c project q j x s n
          ∙ apart q j (h x (here refl));
      log = one.log ++ rest.log;
      appended =
          rest.appended
          ∙ ap (λ (l : List Stop). l ++ rest.log) one.appended
          ∙ append_assoc s.stops one.log rest.log;
      own = λ r v. elim (In-append_cases one.log rest.log v) [
        | inl a ↦ (x, here refl, one.own r a)
        | inr b ↦ let (y, u, e) = rest.own r b in (y, there u, e)
      ];
      sent = send;
    }
  where
    mark : (y : Instance) → In y (x ∷ xs) → IsMarked y.id t.instances
    mark y (here e) =
        rest.marks_stay y.id
          (remove_replica-marks c project x s y.id (inl (ap (λ (i : Instance). i.id) (sym e))))
    mark y (there v) = rest.marked y v

    unroute_all :
        (y : Instance) → project ≢ "" → In y (x ∷ xs) → has_target project y.id t.router ≡ false
    unroute_all y n (here e) =
        rest.unrouted_stays project y.id n (
          rw (has_target-remove c project project y.id x s n, e, eq_refl project, eq_refl x.id)
            refl)
    unroute_all y n (there v) = rest.unrouted y n v

    apart :
        (q j : String)
        → x.id ≢ j
        → (if str_eq project q && str_eq x.id j then false else has_target q j s.router)
          ≡ has_target q j s.router
    apart q j ne = ground (arith, eq_iff x.id j)

    send :
        (y : Instance) (key : String)
        → In y (x ∷ xs)
        → y.worker_id ≢ ""
        → HasWorker y.worker_id key s.registry
        → ((w : Worker) → (client : WorkerClient) × (c.client w ≡ ok client))
        → In
            (record { worker_key = key; instance_id = y.instance_key })
            ((remove_replica-Released c project x s).log ++ rest.log)
    send y key (here e) n has client =
        let one = remove_replica-Released c project x s in
        In-append_left one.log rest.log (rw e (one.sent key (rw e at n) (rw e at has) client))
    send y key (there v) n has client =
        let one = remove_replica-Released c project x s in
        In-append_right one.log rest.log
          (rest.sent y key v n (one.workers y.worker_id key has) client)

pub remove_replicas-IsRemoved :
    (c : Collaborators) (project : String) (xs : List Instance) (s : Service)
    → IsRemoved c project xs s (remove_replicas c project xs s)
unfolding remove_replicas
remove_replicas-IsRemoved c project [] s = nothing-IsRemoved c project s
remove_replicas-IsRemoved c project (x ∷ xs) s =
    next-IsRemoved c project x xs s _
      (remove_replicas-IsRemoved c project xs (remove_replica c project x s))

pub remove_replicas-deployments :
    (c : Collaborators) (project : String) (xs : List Instance) (s : Service)
    → (remove_replicas c project xs s).deployments ≡ s.deployments
unfolding remove_replicas
remove_replicas-deployments c project [] s = refl
remove_replicas-deployments c project (x ∷ xs) s =
    remove_replicas-deployments c project xs (remove_replica c project x s)
    ∙ remove_replica-deployments c project x s

-- The record holds for every state that has the same instances, routes and requests.
pub IsRemoved-same :
    (c : Collaborators) (project : String) (gone : List Instance) (s t u : Service)
    → u.instances ≡ t.instances
    → u.router ≡ t.router
    → u.stops ≡ t.stops
    → IsRemoved c project gone s t
    → IsRemoved c project gone s u
IsRemoved-same c project gone s t u i r e h = record {
  marked = λ x v. rw i (h.marked x v);
  marks_stay = λ j m. rw i (h.marks_stay j m);
  unrouted = λ x n v. ap (has_target project x.id) r ∙ h.unrouted x n v;
  unrouted_stays = λ q j n k. ap (has_target q j) r ∙ h.unrouted_stays q j n k;
  other_routes = λ q j n k. ap (has_target q j) r ∙ h.other_routes q j n k;
  log = h.log;
  appended = e ∙ h.appended;
  own = h.own;
  sent = h.sent;
}
