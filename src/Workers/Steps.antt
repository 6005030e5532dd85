-- ===== src/Workers/Steps.antt =====
-- internal/workers/registry.go: the states that a registry reaches by its operations.
use almichot_cloud.Prelude.{
  ℤ, pos, ℕ, String, ◌≡◌, ◌≢◌, refl, Bool, Option, none, some, inl, inr, Result, ok, err, arith,
  lookup, get_elem?, Option-cases, Bool-cases, get_elem?-set_self, ◌≤ℤ◌, str_eq,
}
use mathlib.Core.Path.{subst}
use almichot_cloud.Workers.Model.{Worker, WorkerHealth}
use almichot_cloud.Workers.Health.{HealthStateMachineConfig, apply_heartbeat_success}
use almichot_cloud.Workers.Repository.{
  Table, Error, deref, store, link, upsert, empty_table, adjust,
}
use almichot_cloud.Workers.Repository.Tables.{
  IsSettled, IsSound, Updates, store-IsSound, enter-IsSound, link_same, empty_table-IsSound,
}
use almichot_cloud.Workers.Registry.{
  Registry, new_registry, find_worker, with_worker, put, heartbeat_at, set_health, set_partitioned,
  drain, undrain, update_workload, set_health_config, or_unchanged,
}
use almichot_cloud.Workers.Registration.{
  RegisterParams, register, register_at, registered, bad_capability,
}

-- One successful operation. A registration draws an ID that is new to the registry.
pub data Step (r : Registry) : Registry → Type 0 where
  join :
      {s : Registry} {w : Worker} (new_id : String) (now at : ℤ) (p : RegisterParams)
      → new_id ≢ ""
      → lookup new_id r.cache.by_id ≡ none
      → register new_id now at p r ≡ ok (w, s)
      → Step r s
  beat : {s : Registry} (at : ℤ) (k : String) (now : ℤ) → heartbeat_at at k now r ≡ ok s → Step r s
  judge :
      {s : Registry} {w : Worker} (now at : ℤ) (k : String) (h : WorkerHealth)
      → set_health now at k h r ≡ ok (w, s)
      → Step r s
  partition :
      {s : Registry} {w : Worker} (now : ℤ) (k : String) (b : Bool)
      → set_partitioned now k b r ≡ ok (w, s)
      → Step r s
  empty_out :
      {s : Registry} {w : Worker} (now at : ℤ) (k : String)
      → drain now at k r ≡ ok (w, s)
      → Step r s
  restore :
      {s : Registry} {w : Worker} (now at : ℤ) (k : String)
      → undrain now at k r ≡ ok (w, s)
      → Step r s
  load : (k : String) (delta : ℤ) → Step r (update_workload k delta r)
  configure : (cfg : HealthStateMachineConfig) → Step r (set_health_config cfg r)

pub data Reach (r : Registry) : Registry → Type 0 where
  start : Reach r r
  next : {s t : Registry} → Reach r s → Step s t → Reach r t

-- A successful operation on a named worker ran on the record behind a valid pointer.
pub found_at-ok {ℓ} :
    {A : Type ℓ} (k : String) (r : Registry) (f : ℕ → Worker → A) {a : A}
    → with_worker k r f ≡ ok a
    → (p : ℕ) × (w : Worker) × (get_elem? r.cache.heap p ≡ some w) × (f p w ≡ a)
found_at-ok k r f h = elim (Option-cases (find_worker k r.cache)) [
  | inl e ↦ absurd (ground arith)
  | inr (p, e) ↦ elim (Option-cases (get_elem? r.cache.heap p)) [
    | inl e' ↦ absurd (ground arith)
    | inr (w, e') ↦ (p, w, e', ground arith)
  ]
]

put-IsSound :
    (r : Registry) (p : ℕ) (v w : Worker)
    → IsSound r.cache
    → get_elem? r.cache.heap p ≡ some w
    → v.worker_key ≡ w.worker_key
    → v.id ≡ w.id
    → (IsSettled w → IsSettled v)
    → IsSound (put r p v).cache
put-IsSound r p v w s at k i f =
    store-IsSound r.cache p v w s at (record { same_key = k; same_id = i }) f

heartbeat_at-IsSound :
    (r s : Registry) (at now : ℤ) (k : String)
    → IsSound r.cache
    → heartbeat_at at k now r ≡ ok s
    → IsSound s.cache
unfolding heartbeat_at apply_heartbeat_success
heartbeat_at-IsSound r s at now k i h =
    let (p, w, e, f) = found_at-ok k r _ h in
    subst (λ (x : Registry). IsSound x.cache) f
      (put-IsSound r p _ w i e (ground arith) (ground arith) (λ g. ground arith))

set_health-IsSound :
    (r s : Registry) (now at : ℤ) (k : String) (h : WorkerHealth) (w' : Worker)
    → IsSound r.cache
    → set_health now at k h r ≡ ok (w', s)
    → IsSound s.cache
unfolding set_health
set_health-IsSound r s now at k h w' i g =
    let (p, w, e, f) = found_at-ok k r _ g in
    subst (λ (x : Worker × Registry). IsSound x.1.cache) f
      (put-IsSound r p _ w i e refl refl (λ c. record { scheduling = c.scheduling; load = c.load }))

set_partitioned-IsSound :
    (r s : Registry) (now : ℤ) (k : String) (b : Bool) (w' : Worker)
    → IsSound r.cache
    → set_partitioned now k b r ≡ ok (w', s)
    → IsSound s.cache
unfolding set_partitioned
set_partitioned-IsSound r s now k b w' i g =
    let (p, w, e, f) = found_at-ok k r _ g in
    subst (λ (x : Worker × Registry). IsSound x.1.cache) f
      (put-IsSound r p _ w i e refl refl (λ c. record { scheduling = c.scheduling; load = c.load }))

drain-IsSound :
    (r s : Registry) (now at : ℤ) (k : String) (w' : Worker)
    → IsSound r.cache
    → drain now at k r ≡ ok (w', s)
    → IsSound s.cache
unfolding drain
drain-IsSound r s now at k w' i g =
    let (p, w, e, f) = found_at-ok k r _ g in
    subst (λ (x : Worker × Registry). IsSound x.1.cache) f
      (put-IsSound r p _ w i e refl refl
        (λ c. record { scheduling = inr (refl, refl); load = c.load }))

undrain-IsSound :
    (r s : Registry) (now at : ℤ) (k : String) (w' : Worker)
    → IsSound r.cache
    → undrain now at k r ≡ ok (w', s)
    → IsSound s.cache
unfolding undrain
undrain-IsSound r s now at k w' i g =
    let (p, w, e, f) = found_at-ok k r _ g in
    subst (λ (x : Worker × Registry). IsSound x.1.cache) f
      (put-IsSound r p _ w i e refl refl
        (λ c. record { scheduling = inl (refl, refl); load = c.load }))

adjust_nonneg : (a d : ℤ) → pos 0 ≤ℤ adjust a d
unfolding adjust
adjust_nonneg a d = ground arith

or_unchanged-keeps :
    (P : Registry → Type 0) (r : Registry) (x : Result Error Registry)
    → P r
    → ((s : Registry) → x ≡ ok s → P s)
    → P (or_unchanged r x)
or_unchanged-keeps P r (ok s) h k = k s refl
or_unchanged-keeps P r (err e) h k = h

update_workload-IsSound :
    (r : Registry) (k : String) (delta : ℤ)
    → IsSound r.cache
    → IsSound (update_workload k delta r).cache
unfolding update_workload
update_workload-IsSound r k delta i =
    let change = λ (p : ℕ) (w : Worker).
      put r p (record w { active_workloads = adjust w.active_workloads delta }) in
    or_unchanged-keeps (λ s. IsSound s.cache) r (with_worker k r change) i
      λ s h.
        let (p, w, e, f) = found_at-ok k r change h in
        subst (λ (x : Registry). IsSound x.cache) f
          (put-IsSound r p _ w i e refl refl (λ c. record {
            scheduling = c.scheduling;
            load = adjust_nonneg w.active_workloads delta;
          }))

-- A worker that is written through its pointer and entered again under its names.
save-IsSound :
    (t : Table) (p : ℕ) (v w : Worker)
    → IsSound t
    → get_elem? t.heap p ≡ some w
    → Updates v w
    → IsSettled v
    → IsSound (link p v (store t p v))
save-IsSound t p v w i e u c =
    let j = store-IsSound t p v w i e u (λ _. c) in
    rw (link_same (store t p v) p v j.linked (get_elem?-set_self t.heap p v w e)) j

register_at-IsSound :
    (r : Registry) (new_id : String) (now at : ℤ) (a : RegisterParams)
    → IsSound r.cache
    → new_id ≢ ""
    → lookup new_id r.cache.by_id ≡ none
    → (o : Option ℕ) → lookup a.worker_key r.cache.workers ≡ o
    → (q : Option Worker) → deref r.cache o ≡ q
    → IsSound (register_at new_id now at a r o q).1.cache
unfolding upsert registered
register_at-IsSound r new_id now at a i named new none e q f =
    enter-IsSound r.cache _ i e named new
      (record { scheduling = inl (refl, refl); load = omega arith })
register_at-IsSound r new_id now at a i named new (some p) e none f =
    let (w, g, _) = i.linked.by_key a.worker_key p e in absurd (ground arith)
register_at-IsSound r new_id now at a i named new (some p) e (some w) f =
    save-IsSound r.cache p _ w i f (record { same_key = refl; same_id = refl })
      (record { scheduling = inl (refl, refl); load = (i.settled p w f).load })

-- A registration that succeeds is that of a worker with a key and an acceptable label.
pub register-ok :
    (r s : Registry) (new_id : String) (now at : ℤ) (a : RegisterParams) (w : Worker)
    → register new_id now at a r ≡ ok (w, s)
    → let o = lookup a.worker_key r.cache.workers in
      register_at new_id now at a r o (deref r.cache o) ≡ (w, s)
unfolding register
register-ok r s new_id now at a w h = elim (Bool-cases (str_eq a.worker_key "")) [
  | inl e ↦ absurd (ground arith)
  | inr e ↦ elim (Option-cases (bad_capability (lookup "capability" a.labels))) [
    | inl e' ↦ ground arith
    | inr (c, e') ↦ absurd (ground arith)
  ]
]

-- Every operation keeps a sound registry sound.
pub Step-IsSound : {r s : Registry} → Step r s → IsSound r.cache → IsSound s.cache
Step-IsSound {r} (join {s = s} {w = w} new_id now at p named new h) i =
    subst (λ (x : Worker × Registry). IsSound x.1.cache) (register-ok r s new_id now at p w h)
      (register_at-IsSound r new_id now at p i named new _ refl _ refl)
Step-IsSound {r} (beat {s = s} at k now h) i = heartbeat_at-IsSound r s at now k i h
Step-IsSound {r} (judge {s = s} {w = w} now at k c h) i = set_health-IsSound r s now at k c w i h
Step-IsSound {r} (partition {s = s} {w = w} now k b h) i = set_partitioned-IsSound r s now k b w i h
Step-IsSound {r} (empty_out {s = s} {w = w} now at k h) i = drain-IsSound r s now at k w i h
Step-IsSound {r} (restore {s = s} {w = w} now at k h) i = undrain-IsSound r s now at k w i h
Step-IsSound {r} (load k delta) i = update_workload-IsSound r k delta i
Step-IsSound {r} (configure cfg) i = unfold set_health_config in i

-- Whatever successful operations have run since the registry was created over an empty repository,
-- where each registration draws an ID that is not empty and new to the registry, the registry's two
-- maps and its workers agree, every worker is either ready and schedulable or draining and not, and
-- no load is negative.
pub Reach-IsSound : {s : Registry} → Reach (new_registry empty_table) s → IsSound s.cache
unfolding new_registry
Reach-IsSound start = empty_table-IsSound
Reach-IsSound (next r st) = Step-IsSound st (Reach-IsSound r)
