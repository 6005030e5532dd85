-- ===== src/Deployments/Service/Removal.antt =====
-- internal/deployments/service.go, ScaleDeployment: what the loop that removes replicas leaves.
use mathlib.Core.List.{append-nil}
use almichot_cloud.Prelude.{
  ℤ, negsuc, ℕ, String, ◌≡◌, ◌≢◌, refl, sym, ap, ◌∙◌, false, ◌&&◌, Option, none, some, List, [],
  ◌∷◌, ◌++◌, In, here, there, Result, ok, err, arith, eq_iff, str_eq, if◌then◌else◌, inl, inr, ◌⊎◌,
  Bool-cases, Option-cases, lookup, get_elem?, set, get_elem?-set_self, get_elem?-set_ne,
}
use native.Mathlib.Decide.{ℕ_discrete}
use almichot_cloud.Workers.Repository.{deref, store, adjust}
use almichot_cloud.Workers.Model.{Worker}
use almichot_cloud.Workers.Registry.{Registry, update_workload, find_worker}
use almichot_cloud.Workers.Registry
use almichot_cloud.Balancer.Targets.{has_target}
use almichot_cloud.Deployments.Lifecycle.{Instance}
use almichot_cloud.Deployments.Instances.{Instances, get_by_id, found, deref as deref_instance}
use almichot_cloud.Deployments.Instances
use almichot_cloud.Deployments.Repository.{instance_not_found}
use almichot_cloud.Deployments.Service.{Collaborators, Service, Stop, WorkerClient, save_instance}
use almichot_cloud.Deployments.Service.Stopping.{send_stop, logged, unroute}
use almichot_cloud.Deployments.Service.Scaling.{discharge, release_worker, remove_replica}
use almichot_cloud.Deployments.Service.Retired.{logged_keeps, has_target-unroute}

some_inj {ℓ} : {A : Type ℓ} {a b : A} → some a ≡ some b → a ≡ b
some_inj e = cc

none-some {ℓ} : {A : Type ℓ} (a : A) → none ≡ some a → a ≢ a
none-some a e = cc

-- A worker with the key is found under the name.
abbrev pub HasWorker : String → String → Registry → Type 0
HasWorker name key r = (w : Worker) × (Registry.get name r ≡ some w) × (w.worker_key ≡ key)

update_workload-HasWorker :
    (k : String) (delta : ℤ) (name key : String) (r : Registry)
    → HasWorker name key r
    → HasWorker name key (update_workload k delta r)
unfolding update_workload Registry.get
update_workload-HasWorker k delta name key r h = elim (Option-cases (find_worker k r.cache)) [
  | inl e ↦ rw e h
  | inr (p, e) ↦ elim (Option-cases (get_elem? r.cache.heap p)) [
    | inl f ↦ rw (e, f) h
    | inr (v, f) ↦ rw (e, f) (at v p f (find_worker name r.cache) h)
  ]
]
  where
    at :
        (v : Worker) (p : ℕ)
        → get_elem? r.cache.heap p ≡ some v
        → (o : Option ℕ) → ((w : Worker) × (deref r.cache o ≡ some w) × (w.worker_key ≡ key))
        → let loaded : Worker = record v { active_workloads = adjust v.active_workloads delta } in
          (w : Worker) × (deref (store r.cache p loaded) o ≡ some w) × (w.worker_key ≡ key)
    at v p f none (w, g, k) = absurd cc
    at v p f (some q) (w, g, k) = elim (ℕ_discrete p q) [
      | yes same ↦
          let loaded : Worker = record v { active_workloads = adjust v.active_workloads delta } in
          let vw : v ≡ w = some_inj (sym f ∙ ap (get_elem? r.cache.heap) same ∙ g) in
          (
            loaded,
            rw (← same) (get_elem?-set_self r.cache.heap p loaded v f),
            ap (λ (x : Worker). x.worker_key) vw ∙ k,
          )
      | no other ↦ (w, get_elem?-set_ne r.cache.heap p q _ other ∙ g, k)
    ]

logged-instances :
    (w : Worker) (x : Instance) (r : Result String WorkerClient) (s : Service)
    → (logged w x r s).instances ≡ s.instances
logged-instances w x (ok client) s = refl
logged-instances w x (err e) s = refl

-- The stop requests that one instance gives rise to.
abbrev pub IsStopOf : Instance → Stop → Type 0
IsStopOf x r = r.instance_id ≡ x.instance_key

-- What the removal of one replica appends to the log.
pub record Released (c : Collaborators) (x : Instance) (s t : Service) : Type 0 where
  pub log : List Stop
  pub appended : t.stops ≡ s.stops ++ log
  pub own : (r : Stop) → In r log → IsStopOf x r
  pub sent :
      (key : String)
      → x.worker_id ≢ ""
      → HasWorker x.worker_id key s.registry
      → ((w : Worker) → (client : WorkerClient) × (c.client w ≡ ok client))
      → In (record { worker_key = key; instance_id = x.instance_key }) log
  pub workers : (name key : String) → HasWorker name key s.registry → HasWorker name key t.registry

-- Nothing is sent and the workers are as before.
nothing-Released :
    (c : Collaborators) (x : Instance) (s t : Service)
    → t.stops ≡ s.stops
    → t.registry ≡ s.registry
    → ((key : String) → x.worker_id ≢ "" → HasWorker x.worker_id key s.registry → ⊥)
    → Released c x s t
nothing-Released c x s t e g none_there = record {
  log = [];
  appended = e ∙ sym (append-nil s.stops);
  own = λ r v. elim v [ ];
  sent = λ key named has client. absurd (none_there key named has);
  workers = λ name key has. rw g has;
}

sent-Released :
    (c : Collaborators) (x : Instance) (w : Worker) (s : Service) (r : Result String WorkerClient)
    → x.worker_id ≢ ""
    → Registry.get x.worker_id s.registry ≡ some w
    → c.client w ≡ r
    → Released c x s (discharge (some w) (logged w x r s))
sent-Released c x w s (err e) named at answer = record {
  log = [];
  appended = sym (append-nil s.stops);
  own = λ r v. elim v [ ];
  sent = λ key n has client. let (y, k) = client w in absurd (err-ok y (sym answer ∙ k) refl);
  workers =
      λ name key has. update_workload-HasWorker w.worker_key (negsuc 0) name key s.registry has;
}
  where
    err-ok : (y : WorkerClient) → err e ≡ ok y → e ≢ e
    err-ok y k = cc
sent-Released c x w s (ok client) named at answer =
    let r : Stop = record { worker_key = w.worker_key; instance_id = x.instance_key } in
    record {
      log = r ∷ [];
      appended = refl;
      own = λ q v. elim v [ here e ↦ rw e refl | there u ↦ elim u [ ] ];
      sent = λ key n (v, g, k) client. here (
          ap
            (λ (i : String).
              let q : Stop = record { worker_key = i; instance_id = x.instance_key } in q)
            (sym (ap (λ (y : Worker). y.worker_key) (some_inj (sym at ∙ g)) ∙ k)));
      workers =
          λ name key has. update_workload-HasWorker w.worker_key (negsuc 0) name key s.registry has;
    }

release_worker-Released :
    (c : Collaborators) (x : Instance) (s : Service) → Released c x s (release_worker c x s)
unfolding release_worker send_stop
release_worker-Released c x s = elim (Bool-cases (str_eq x.worker_id "")) [
  | inl b ↦ rw b (nothing-Released c x s s refl refl (λ key n h. n ((eq_iff x.worker_id "").0 b)))
  | inr b ↦ elim (Option-cases (Registry.get x.worker_id s.registry)) [
    | inl e ↦
        rw (b, e)
          (nothing-Released c x s s refl refl
            (λ key n (w, g, k). absurd (none-some w (sym e ∙ g) refl)))
    | inr (w, e) ↦
        rw (b, e)
          (sent-Released c x w s (c.client w) (λ z. ground (arith, eq_iff x.worker_id "")) e refl)
  ]
]

release_worker_keeps :
    (c : Collaborators) (x : Instance) (s : Service)
    → ((release_worker c x s).router ≡ s.router)
      × ((release_worker c x s).deployments ≡ s.deployments)
      × ((release_worker c x s).instances ≡ s.instances)
unfolding release_worker send_stop
release_worker_keeps c x s = elim (Bool-cases (str_eq x.worker_id "")) [
  | inl b ↦ rw b (refl, refl, refl)
  | inr b ↦ elim (Option-cases (Registry.get x.worker_id s.registry)) [
    | inl e ↦ rw (b, e) (refl, refl, refl)
    | inr (w, e) ↦
        let k = logged_keeps w x (c.client w) s in
        rw (b, e) (k.1, k.2, logged-instances w x (c.client w) s)
  ]
]

unroute_keeps :
    (project i : String) (s : Service)
    → ((unroute project i s).stops ≡ s.stops)
      × ((unroute project i s).registry ≡ s.registry)
      × ((unroute project i s).deployments ≡ s.deployments)
      × ((unroute project i s).instances ≡ s.instances)
unfolding unroute
unroute_keeps project i s = elim (Bool-cases (str_eq project "")) [
  | inl b ↦ rw b (refl, refl, refl, refl)
  | inr b ↦ rw b (refl, refl, refl, refl)
]

-- Every record that is found under the ID is STOPPED.
abbrev pub IsMarked : String → Instances → Type 0
IsMarked i t = (y : Instance) → get_by_id i t ≡ ok y → y.status ≡ "STOPPED"

marked : ℤ → Instance → Service → Service
marked now x s = (save_instance now (record x { status = "STOPPED" }) s).1

found_at :
    (o : Option ℕ) (t : Instances) (y : Instance)
    → found (deref_instance t o) ≡ ok y
    → (q : ℕ) × (o ≡ some q) × (get_elem? t.heap q ≡ some y)
found_at none t y h = absurd (err-ok h refl)
  where
    err-ok : err instance_not_found ≡ ok y → y ≢ y
    err-ok e = cc
found_at (some q) t y h = elim (Option-cases (get_elem? t.heap q)) [
  | inl e ↦ absurd (err-ok (rw e at h) refl)
  | inr (z, e) ↦ (q, refl, e ∙ ap some (ok-inj z (rw e at h)))
]
  where
    err-ok : err instance_not_found ≡ ok y → y ≢ y
    err-ok e = cc

    ok-inj : (z : Instance) → found (some z) ≡ ok y → z ≡ y
    ok-inj z e = cc

save_instance-marks :
    (now : ℤ) (x : Instance) (s : Service) (j : String)
    → (x.id ≡ j) ⊎ IsMarked j s.instances
    → IsMarked j (marked now x s).instances
unfolding marked save_instance Instances.update get_by_id
save_instance-marks now x s j h y g = elim (Option-cases (lookup x.id s.instances.instances)) [
  | inl e ↦
      let k : get_by_id j s.instances ≡ ok y = rw e at g in
      let (q, l, at) = found_at (lookup j s.instances.instances) s.instances y k in
      before k (λ same.
        none-some q (sym e ∙ ap (λ (i : String). lookup i s.instances.instances) same ∙ l) refl)
  | inr (p, e) ↦ elim (Option-cases (get_elem? s.instances.heap p)) [
    | inl f ↦
        let k : get_by_id j s.instances ≡ ok y = rw (e, f) at g in
        let (q, l, at) = found_at (lookup j s.instances.instances) s.instances y k in
        before k (λ same.
          let pq =
            some_inj (sym e ∙ ap (λ (i : String). lookup i s.instances.instances) same ∙ l) in
          none-some y (sym f ∙ ap (get_elem? s.instances.heap) pq ∙ at) refl)
    | inr (old, f) ↦
        let w : Instance = record x { status = "STOPPED"; updated_at = some now } in
        let t : Instances = record s.instances { heap = set s.instances.heap p w } in
        let (q, l, at) = found_at (lookup j s.instances.instances) t y (rw (e, f) at g) in
        elim (ℕ_discrete p q) [
          | yes same ↦
              let wy : w ≡ y = some_inj (
                sym (get_elem?-set_self s.instances.heap p w old f)
                ∙ ap (get_elem? (set s.instances.heap p w)) same
                ∙ at) in
              ap (λ (i : Instance). i.status) (sym wy)
          | no other ↦
              let at' = sym (get_elem?-set_ne s.instances.heap p q w other) ∙ at in
              before (unfold get_by_id in rw (l, at') refl) (λ same.
                other
                  (some_inj (sym e ∙ ap (λ (i : String). lookup i s.instances.instances) same ∙ l)))
        ]
  ]
]
  where
    before : get_by_id j s.instances ≡ ok y → (x.id ≢ j) → y.status ≡ "STOPPED"
    before k ne = elim h [ inl e ↦ absurd (ne e) | inr m ↦ m y k ]

pub remove_replica-deployments :
    (c : Collaborators) (project : String) (x : Instance) (s : Service)
    → (remove_replica c project x s).deployments ≡ s.deployments
unfolding remove_replica save_instance
remove_replica-deployments c project x s =
    (release_worker_keeps c x (unroute project x.id s)).1 ∙ (unroute_keeps project x.id s).2

pub has_target-remove :
    (c : Collaborators) (project q j : String) (x : Instance) (s : Service)
    → project ≢ ""
    → has_target q j (remove_replica c project x s).router
      ≡ (if str_eq project q && str_eq x.id j then false else has_target q j s.router)
unfolding remove_replica save_instance
has_target-remove c project q j x s named =
    ap (has_target q j) (release_worker_keeps c x (unroute project x.id s)).0
    ∙ has_target-unroute project x.id q j s named

pub remove_replica-Released :
    (c : Collaborators) (project : String) (x : Instance) (s : Service)
    → Released c x s (remove_replica c project x s)
unfolding remove_replica save_instance
remove_replica-Released c project x s =
    let u = unroute project x.id s in
    let k = unroute_keeps project x.id s in
    let r = release_worker-Released c x u in
    record {
      log = r.log;
      appended = r.appended ∙ ap (λ (l : List Stop). l ++ r.log) k.0;
      own = r.own;
      sent = λ key n has client. r.sent key n (rw k.1 has) client;
      workers = λ name key has. r.workers name key (rw k.1 has);
    }

pub remove_replica-marks :
    (c : Collaborators) (project : String) (x : Instance) (s : Service) (j : String)
    → (x.id ≡ j) ⊎ IsMarked j s.instances
    → IsMarked j (remove_replica c project x s).instances
unfolding remove_replica marked
remove_replica-marks c project x s j h =
    let u = unroute project x.id s in
    let same = (release_worker_keeps c x u).2 ∙ (unroute_keeps project x.id s).3 in
    save_instance-marks c.now x (release_worker c x u) j
      (elim h [ inl e ↦ inl e | inr m ↦ inr (rw same m) ])
