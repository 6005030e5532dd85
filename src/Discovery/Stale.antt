-- ===== src/Discovery/Stale.antt =====
-- internal/discovery/service_registry.go: an instance that has moved to another worker keeps its
-- entry under the worker that it left.
use mathlib.Core.Path.{subst}
use almichot_cloud.Prelude.{
  sym, set, ℤ, ℕ, String, ◌≡◌, ◌≢◌, refl, true, false, Option, none, some, List, [], ◌∷◌, lookup,
  insert, get_elem?, str_eq, eq_iff, eq_refl, arith, Option-cases, Bool-cases, ap, ◌++◌, ◌∙◌,
  lookup-insert_self, not, ◌&&◌, inl, inr, lookup-insert,
}
use almichot_cloud.Balancer.{Router, register_target, with_scheme}
use almichot_cloud.Balancer.Targets.{has_target-add}
use almichot_cloud.Discovery.{
  Endpoint, healthy, unhealthy, ServiceRegistry, new_service_registry, group, evict_all, evict_one,
  evict_worker_endpoints, register_endpoint, enter, routed, stamped, is_healthy,
}
use almichot_cloud.Discovery.Routing.{routes, evict_one-routes}

-- Routing an endpoint changes the load balancer only.
routed_lem :
    (parse : String → Option String) (ep : Endpoint) (s : ServiceRegistry) (o : Option Router)
    → (routed parse ep s o).1 ≡ record s { router = (routed parse ep s o).1.router }
routed_lem parse ep s none = refl
routed_lem parse ep s (some r) =
    elim (Bool-cases (is_healthy ep.status && not (str_eq ep.address ""))) [
      | inl e ↦
          elim (Option-cases (register_target parse ep.project_id ep.instance_id ep.address r)) [
            | inl f ↦ rw (e, f)
            | inr (r', f) ↦ rw (e, f)
          ]
      | inr e ↦ rw e
    ]

-- A registration enters the endpoint and changes the load balancer.
register_lem :
    (parse : String → Option String) (now : ℤ) (ep : Endpoint) (s : ServiceRegistry)
    → let t = (register_endpoint parse now ep s).1 in
      t ≡ record (enter (stamped now ep) s) { router = t.router }
unfolding register_endpoint
register_lem parse now ep s = routed_lem parse (stamped now ep) (enter (stamped now ep) s) s.router

-- The state after the registrations of an endpoint and of a second one.
abbrev pub moved :
    (String → Option String) → ℤ → Endpoint → Endpoint → Option Router → ServiceRegistry
moved parse now old new router =
    (register_endpoint parse now new
      (register_endpoint parse now old (new_service_registry router)).1).1

-- The tables after the two registrations, whatever the load balancer did.
module _ (parse : String → Option String) (now : ℤ) (old new : Endpoint) (router : Option Router)
    (same : new.instance_id ≡ old.instance_id) (apart : old.worker_id ≢ new.worker_id) where
  abbrev first : ServiceRegistry
  first = (register_endpoint parse now old (new_service_registry router)).1

  abbrev second : ServiceRegistry
  second = moved parse now old new router

  first-heap : first.heap ≡ stamped now old ∷ []
  unfolding enter
  first-heap =
      ap (λ (s : ServiceRegistry). s.heap)
        (register_lem parse now old (new_service_registry router))

  first-by_worker : first.by_worker ≡ (old.worker_id, (old.instance_id, 0) ∷ []) ∷ []
  unfolding enter insert lookup
  first-by_worker =
      ap (λ (s : ServiceRegistry). s.by_worker)
        (register_lem parse now old (new_service_registry router))

  second-heap : second.heap ≡ stamped now old ∷ stamped now new ∷ []
  unfolding enter
  second-heap =
      ap (λ (s : ServiceRegistry). s.heap) (register_lem parse now new first)
      ∙ ap (λ (h : List Endpoint). h ++ stamped now new ∷ []) first-heap

  second-endpoints : lookup old.instance_id second.endpoints ≡ some 1
  unfolding enter
  second-endpoints =
      ap (λ (s : ServiceRegistry). lookup old.instance_id s.endpoints)
        (register_lem parse now new first)
      ∙ rw (first-heap, same) (lookup-insert_self old.instance_id 1 first.endpoints)

  second-group : group old.worker_id second.by_worker ≡ (old.instance_id, 0) ∷ []
  unfolding enter lookup insert register_endpoint
  second-group =
      ap (λ (s : ServiceRegistry). group old.worker_id s.by_worker)
        (register_lem parse now new first)
      ∙ rw
          (
            lookup-insert new.worker_id old.worker_id _ first.by_worker,
            other,
            first-by_worker,
            lookup,
            eq_refl old.worker_id,
          )
          refl
    where
      other : str_eq new.worker_id old.worker_id ≡ false
      other = ground (arith, eq_iff new.worker_id old.worker_id)

  evicted :
      (later : ℤ)
      → (evict_worker_endpoints later old.worker_id second).1
        ≡ evict_one later 0 second (some (stamped now old))
  unfolding evict_worker_endpoints register_endpoint
  evicted later = rw (second-group, evict_all, second-heap)

-- A registration leaves a router where there was one.
register-keeps_router :
    (parse : String → Option String) (now : ℤ) (ep : Endpoint) (s : ServiceRegistry) (r : Router)
    → s.router ≡ some r
    → (r' : Router) × ((register_endpoint parse now ep s).1.router ≡ some r')
unfolding register_endpoint enter
register-keeps_router parse now ep s r at =
    elim (Bool-cases (is_healthy ep.status && not (str_eq ep.address ""))) [
      | inr e ↦ (r, rw (at, e) refl)
      | inl e ↦
          elim (Option-cases (register_target parse ep.project_id ep.instance_id ep.address r)) [
            | inl f ↦ (r, rw (at, e, f) refl)
            | inr (r', f) ↦ (r', rw (at, e, f) refl)
          ]
    ]

-- A healthy endpoint with an address that parses is routed.
register-routes :
    (parse : String → Option String) (now : ℤ) (ep : Endpoint) (s : ServiceRegistry) (r : Router)
    → (url : String) → s.router ≡ some r
    → ep.status ≡ healthy
    → ep.address ≢ ""
    → parse (with_scheme ep.address) ≡ some url
    → routes ep.project_id ep.instance_id (register_endpoint parse now ep s).1 ≡ true
unfolding register_endpoint register_target
register-routes parse now ep s r url at up named parsed =
    let set : str_eq ep.address "" ≡ false = ground (arith, eq_iff ep.address "") in
    rw (at, up, set, parsed)
      (rw
        (
          has_target-add ep.project_id ep.project_id ep.instance_id ep.instance_id url r,
          eq_refl ep.project_id,
          eq_refl ep.instance_id,
        )
        refl)

-- In a new registry with a load balancer an instance is registered on one worker and then,
-- healthy and at an address that parses, on another one, and has its route. When the first worker
-- is evicted, the load balancer loses the route, although the instance's record still says that
-- it is healthy on the second worker.
pub moved-loses_route :
    (parse : String → Option String) (now later : ℤ) (old new : Endpoint) (router : Router)
    → (url : String) → new.instance_id ≡ old.instance_id
    → new.project_id ≡ old.project_id
    → old.worker_id ≢ new.worker_id
    → new.status ≡ healthy
    → new.address ≢ ""
    → parse (with_scheme new.address) ≡ some url
    → let s = moved parse now old new (some router) in
      let t = (evict_worker_endpoints later old.worker_id s).1 in
      (routes new.project_id new.instance_id s ≡ true)
      × (routes new.project_id new.instance_id t ≡ false)
      × (p : ℕ) × (ep : Endpoint) × (lookup new.instance_id t.endpoints ≡ some p)
      × (get_elem? t.heap p ≡ some ep)
      × (ep.status ≡ healthy)
      × (ep.worker_id ≡ new.worker_id)
moved-loses_route parse now later old new router url same project apart up named parsed =
    let m = moved parse now old new (some router) in
    let out : Endpoint = record (stamped now old) { status = unhealthy; updated_at = some later } in
    let s = evict_one later 0 m (some (stamped now old)) in
    let before = (register_endpoint parse now old (new_service_registry (some router))).1 in
    let (r, at) =
      register-keeps_router parse now old (new_service_registry (some router)) router refl in
    rw (evicted parse now old new (some router) same apart later) (
      register-routes parse now new before r url at up named parsed,
      subst (λ (q : String). routes q new.instance_id s ≡ false) (sym project)
          (subst (λ (i : String). routes old.project_id i s ≡ false) (sym same)
            (evict_one-routes later 0 m (stamped now old))),
      1,
      stamped now new,
      subst (λ (i : String). lookup i s.endpoints ≡ some 1) (sym same)
          (second-endpoints parse now old new (some router) same apart),
      ap (λ (h : List Endpoint). get_elem? (set h 0 out) 1)
          (second-heap parse now old new (some router) same apart),
      up,
      refl,
    )
