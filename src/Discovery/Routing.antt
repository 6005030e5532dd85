-- ===== src/Discovery/Routing.antt =====
-- internal/discovery/service_registry.go: what the load balancer routes to after a change.
use mathlib.Core.Path.{subst}
use native.Mathlib.Decide.{ℕ_discrete}
use almichot_cloud.Prelude.{
  ap, ◌∙◌, sym, ℤ, ℕ, String, ◌≡◌, refl, Bool, false, Option, none, some, [], ◌∷◌, Map, get_elem?,
  ok, eq_refl, arith, get_elem?-set_self, get_elem?-set_ne, In, here, there, Option-cases, inl, inr,
}
use almichot_cloud.Balancer.Targets.{has_target, has_target-unregister}
use almichot_cloud.Discovery.{
  Endpoint, unhealthy, ServiceRegistry, group, evict_all, evict_one, evict_worker_endpoints,
  set_endpoint_health, set_health_at,
}

-- Whether requests for a project can reach an instance; without a router none can.
abbrev pub routes : String → String → ServiceRegistry → Bool
routes project instance_id s = elim s.router [
  | none ↦ false
  | some r ↦ has_target project instance_id r
]

-- Evictions never add a route.
evict_all-routes :
    (now : ℤ) (m : Map ℕ) (s : ServiceRegistry) (q j : String)
    → routes q j s ≡ false
    → routes q j (evict_all now m s) ≡ false
unfolding evict_all
evict_all-routes now [] s q j h = h
evict_all-routes now ((i, p) ∷ more) s q j h =
    evict_all-routes now more (evict_one now p s (get_elem? s.heap p)) q j
      (one (get_elem? s.heap p))
  where
    one : (o : Option Endpoint) → routes q j (evict_one now p s o) ≡ false
    one none = h
    one (some ep) = elim (Option-cases s.router) [
      | inl e ↦ ground arith
      | inr (r, e) ↦ ground (arith, has_target-unregister ep.project_id q ep.instance_id j r)
    ]

-- An endpoint after some evictions: its names are kept, and so is the status UNHEALTHY.
record Keeps (old new : Endpoint) : Type 0 where
  same_instance : new.instance_id ≡ old.instance_id
  same_project : new.project_id ≡ old.project_id
  still_out : old.status ≡ unhealthy → new.status ≡ unhealthy

Keeps-trans : (a b c : Endpoint) → Keeps a b → Keeps b c → Keeps a c
Keeps-trans a b c h k = record {
  same_instance = k.same_instance ∙ h.same_instance;
  same_project = k.same_project ∙ h.same_project;
  still_out = λ e. k.still_out (h.still_out e);
}

evict_one-record :
    (now : ℤ) (q : ℕ) (s : ServiceRegistry) (p : ℕ) (ep : Endpoint)
    → get_elem? s.heap p ≡ some ep
    → (o : Option Endpoint) → get_elem? s.heap q ≡ o
    → (ep' : Endpoint) × (get_elem? (evict_one now q s o).heap p ≡ some ep') × Keeps ep ep'
evict_one-record now q s p ep at none e =
    (ep, at, record { same_instance = refl; same_project = refl; still_out = λ h. h })
evict_one-record now q s p ep at (some x) e = elim (ℕ_discrete q p) [
  | yes same ↦
      let v : Endpoint = record x { status = unhealthy; updated_at = some now } in
      let o : x ≡ ep = cc in
      (
        v,
        rw (← same) (get_elem?-set_self s.heap q v x e),
        rw (← o) (record { same_instance = refl; same_project = refl; still_out = λ _. refl }),
      )
  | no other ↦ (
    ep,
    get_elem?-set_ne s.heap q p _ other ∙ at,
    record { same_instance = refl; same_project = refl; still_out = λ h. h },
  )
]

evict_all-record :
    (now : ℤ) (m : Map ℕ) (s : ServiceRegistry) (p : ℕ) (ep : Endpoint)
    → get_elem? s.heap p ≡ some ep
    → (ep' : Endpoint) × (get_elem? (evict_all now m s).heap p ≡ some ep') × Keeps ep ep'
unfolding evict_all
evict_all-record now [] s p ep at =
    (ep, at, record { same_instance = refl; same_project = refl; still_out = λ h. h })
evict_all-record now ((i, q) ∷ more) s p ep at =
    let (x, at', k) = evict_one-record now q s p ep at (get_elem? s.heap q) refl in
    let (y, at'', k') =
      evict_all-record now more (evict_one now q s (get_elem? s.heap q)) p x at' in
    (y, at'', Keeps-trans ep x y k k')

pub evict_one-routes :
    (now : ℤ) (p : ℕ) (s : ServiceRegistry) (ep : Endpoint)
    → routes ep.project_id ep.instance_id (evict_one now p s (some ep)) ≡ false
evict_one-routes now p s ep = elim (Option-cases s.router) [
  | inl e ↦ rw e
  | inr (r, e) ↦ rw e (
      ground (
        arith,
        has_target-unregister ep.project_id ep.project_id ep.instance_id ep.instance_id r,
        eq_refl ep.project_id,
        eq_refl ep.instance_id,
      ))
]

-- The endpoint behind a pointer is out of service: no route, and a record that is UNHEALTHY.
abbrev pub IsOut : Endpoint → ℕ → ServiceRegistry → Type 0
IsOut ep p t =
    (routes ep.project_id ep.instance_id t ≡ false)
    × (ep' : Endpoint) × (get_elem? t.heap p ≡ some ep')
    × (ep'.status ≡ unhealthy)

evict_one-IsOut :
    (now : ℤ) (more : Map ℕ) (s : ServiceRegistry) (q : ℕ) (ep : Endpoint)
    → get_elem? s.heap q ≡ some ep
    → IsOut ep q (evict_all now more (evict_one now q s (some ep)))
evict_one-IsOut now more s q ep at =
    let v : Endpoint = record ep { status = unhealthy; updated_at = some now } in
    let s' = evict_one now q s (some ep) in
    let (y, at', k) = evict_all-record now more s' q v (get_elem?-set_self s.heap q v ep at) in
    (
      evict_all-routes now more s' ep.project_id ep.instance_id (evict_one-routes now q s ep),
      y,
      at',
      k.still_out refl,
    )

evict_all-In :
    (now : ℤ) (m : Map ℕ) (s : ServiceRegistry) (i : String) (p : ℕ) (ep : Endpoint)
    → In (i, p) m
    → get_elem? s.heap p ≡ some ep
    → IsOut ep p (evict_all now m s)
unfolding evict_all
evict_all-In now [] s i p ep h at = elim h [ ]
evict_all-In now ((j, q) ∷ more) s i p ep (here e) at =
    let same : p ≡ q = ap (λ (x : String × ℕ). x.1) e in
    let o : get_elem? s.heap q ≡ some ep = rw (← same) at in
    subst (λ (n : ℕ). IsOut ep n (evict_all now more (evict_one now q s (get_elem? s.heap q))))
      (sym same)
      (subst (λ (x : Option Endpoint). IsOut ep q (evict_all now more (evict_one now q s x)))
        (sym o) (evict_one-IsOut now more s q ep o))
evict_all-In now ((j, q) ∷ more) s i p ep (there t) at =
    let (x, at', k) = evict_one-record now q s p ep at (get_elem? s.heap q) refl in
    let s' = evict_one now q s (get_elem? s.heap q) in
    let (r, y, at'', out) = evict_all-In now more s' i p x t at' in
    (rw (k.same_project, k.same_instance) at r, y, at'', out)

-- EvictWorkerEndpoints leaves nothing of the worker in service: of every instance that is entered
-- under the worker, the record becomes UNHEALTHY and the load balancer has no route to it.
pub evict_worker_endpoints-IsOut :
    (now : ℤ) (worker_id i : String) (p : ℕ) (ep : Endpoint) (s : ServiceRegistry)
    → In (i, p) (group worker_id s.by_worker)
    → get_elem? s.heap p ≡ some ep
    → IsOut ep p (evict_worker_endpoints now worker_id s).1
unfolding evict_worker_endpoints
evict_worker_endpoints-IsOut now worker_id i p ep s h at =
    evict_all-In now (group worker_id s.by_worker) s i p ep h at

set_health_at-unroutes :
    (parse : String → Option String) (now : ℤ) (s t : ServiceRegistry) (ep : Endpoint)
    → (o : Option ℕ) (x : Option Endpoint) → set_health_at parse now false s o x ≡ ok (ep, t)
    → (routes ep.project_id ep.instance_id t ≡ false) × (ep.status ≡ unhealthy)
set_health_at-unroutes parse now s t ep none x h = cc
set_health_at-unroutes parse now s t ep (some p) none h = cc
set_health_at-unroutes parse now s t ep (some p) (some x) h = (
  elim (Option-cases s.router) [
    | inl e ↦ ground arith
    | inr (r, e) ↦ ground (
      arith,
      has_target-unregister x.project_id x.project_id x.instance_id x.instance_id r,
      eq_refl x.project_id,
      eq_refl x.instance_id,
    )
  ],
  ground arith,
)

-- An instance that is reported unhealthy is marked so and has no route.
pub set_endpoint_health-unroutes :
    (parse : String → Option String) (now : ℤ) (i : String) (ep : Endpoint) (s t : ServiceRegistry)
    → set_endpoint_health parse now i false s ≡ ok (ep, t)
    → (routes ep.project_id ep.instance_id t ≡ false) × (ep.status ≡ unhealthy)
unfolding set_endpoint_health
set_endpoint_health-unroutes parse now i ep s t h = set_health_at-unroutes parse now s t ep _ _ h
