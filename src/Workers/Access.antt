-- ===== src/Workers/Access.antt =====
-- internal/workers/registry.go: what a caller sees of a worker after an operation on it.
use almichot_cloud.Prelude.{
  ℤ, ℕ, String, ◌≡◌, refl, ◌∙◌, true, false, Option, none, some, ok, arith, lookup, get_elem?,
  get_elem?-set_self, Option-cases, inl, inr,
}
use mathlib.Core.Path.{subst}
use almichot_cloud.Workers.Model.{Worker, draining, healthy}
use almichot_cloud.Workers.Health.{HealthStateMachineConfig}
use almichot_cloud.Workers.Health.Healing.{after_beats, after_beats-keep_mark}
use almichot_cloud.Workers.Repository.{deref, upsert}
use almichot_cloud.Workers.Repository.Tables.{IsSound}
use almichot_cloud.Workers.Registry.{Registry, find_worker, drain, get, put, with_worker}
use almichot_cloud.Workers.Registration.{RegisterParams, register, register_at, registered}
use almichot_cloud.Workers.Steps.{found_at-ok, register-ok}

-- A worker that is written through the pointer of its key is what its key gives.
get-put :
    (r : Registry) (p : ℕ) (v w : Worker)
    → IsSound r.cache
    → get_elem? r.cache.heap p ≡ some w
    → v.worker_key ≡ w.worker_key
    → get v.worker_key (put r p v) ≡ some v
unfolding get
get-put r p v w s at e =
    let found : lookup v.worker_key r.cache.workers ≡ some p = rw e (s.linked.key_of p w at) in
    rw (found, find_worker) (get_elem?-set_self r.cache.heap p v w at)

-- In a sound registry a worker that is drained under its key or its ID is found under its key
-- with the state DRAINING and not schedulable, and all else that the caller got of it.
pub drain-get :
    (r s : Registry) (now at : ℤ) (k : String) (v : Worker)
    → IsSound r.cache
    → drain now at k r ≡ ok (v, s)
    → (get v.worker_key s ≡ some v) × (v.state ≡ draining) × (v.schedulable ≡ false)
unfolding drain
drain-get r s now at k v i h =
    let (p, w, e, f) = found_at-ok k r _ h in
    subst
      (λ (x : Worker × Registry).
        (get x.0.worker_key x.1 ≡ some x.0) × (x.0.state ≡ draining) × (x.0.schedulable ≡ false))
      f (unfold get in get-put r p _ w i e refl, refl, refl)

-- A successful operation on a name ran on the worker that the name gives.
pub with_worker-get {ℓ} :
    {A : Type ℓ} (k : String) (r : Registry) (f : ℕ → Worker → A) (w : Worker) {a : A}
    → get k r ≡ some w
    → with_worker k r f ≡ ok a
    → (p : ℕ) × (f p w ≡ a)
unfolding get
with_worker-get k r f w g h = elim (Option-cases (find_worker k r.cache)) [
  | inl e ↦ absurd (ground arith)
  | inr (p, e) ↦ (p, ground arith)
]

register_known :
    (r s : Registry) (new_id : String) (now at : ℤ) (a : RegisterParams) (w : Worker)
    → (o : Option ℕ) (q : Option Worker) → q ≡ some w
    → deref r.cache o ≡ q
    → ((register_at new_id now at a r o q).0.health ≡ healthy)
      × ((register_at new_id now at a r o q).0.is_partitioned ≡ w.is_partitioned)
unfolding upsert registered
register_known r s new_id now at a w none q e f = absurd (ground arith)
register_known r s new_id now at a w (some p) none e f = cc
register_known r s new_id now at a w (some p) (some x) e f = (refl, ground arith)

-- A worker that is marked as partitioned and registers again is reported healthy with the mark
-- still on it, and no number of heartbeats takes the mark off.
pub register-keep_mark :
    (r s : Registry) (new_id : String) (now at : ℤ) (a : RegisterParams) (v w : Worker)
    (cfg : HealthStateMachineConfig) (k : ℕ)
    → deref r.cache (lookup a.worker_key r.cache.workers) ≡ some w
    → w.is_partitioned ≡ true
    → register new_id now at a r ≡ ok (v, s)
    → ((after_beats cfg k v).health ≡ healthy) × ((after_beats cfg k v).is_partitioned ≡ true)
register-keep_mark r s new_id now at a v w cfg k known mark h =
    let o = lookup a.worker_key r.cache.workers in
    let (x, y) = register_known r s new_id now at a w o (deref r.cache o) known refl in
    let same = register-ok r s new_id now at a v h in
    after_beats-keep_mark cfg k v (subst (λ (z : Worker × Registry). z.0.health ≡ healthy) same x)
      (subst (λ (z : Worker × Registry). z.0.is_partitioned ≡ w.is_partitioned) same y ∙ mark)
