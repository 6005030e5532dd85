-- ===== src/Tests/Traffic.antt =====
-- The load balancer and the service registry.
use almichot_cloud.Prelude.{
  pos, ℕ, String, ◌≡◌, ◌≢◌, refl, false, Option, some, here, [], ◌∷◌, ok, true, arith, eq_iff,
  lookup, get_elem?,
}
use almichot_cloud.Balancer.{Target, Router, route, targets_of}
use almichot_cloud.Balancer.Rotation.{after_requests, route-rotates}
use almichot_cloud.Discovery.{Endpoint, healthy, unhealthy, ServiceRegistry, evict_worker_endpoints}
use almichot_cloud.Discovery.Routing.{routes, IsOut, evict_worker_endpoints-IsOut}
use almichot_cloud.Discovery.Stale.{moved, moved-loses_route}

abbrev first : Target
first = record { instance_id = "i1"; url = "http://10.0.0.1:80" }

abbrev second_target : Target
second_target = record { instance_id = "i2"; url = "http://10.0.0.2:80" }

abbrev router : Router
router = record { targets = ("shop", first ∷ second_target ∷ []) ∷ []; counter = 4 }

route-rotates_example :
    let ts = targets_of "shop" router in
    let first_answer = route "shop" router in
    (i : ℕ) × (j : ℕ) × (t : Target) × (u : Target) × (i ≢ j)
    × (get_elem? ts i ≡ some t)
    × (get_elem? ts j ≡ some u)
    × (first_answer.0 ≡ ok t)
    × ((route "shop" (after_requests [] first_answer.1)).0 ≡ ok u)
unfolding lookup
route-rotates_example = route-rotates "shop" router [] (λ e. cc) (omega arith) (omega arith)

-- Two requests in a row go to the two backends.
turns :
    ((route "shop" router).0 ≡ ok second_target)
    × ((route "shop" (route "shop" router).1).0 ≡ ok first)
unfolding route lookup
turns = (refl, refl)

abbrev parse : String → Option String
parse s = some s

abbrev endpoint : String → Endpoint
endpoint worker_id = record {
  instance_id = "i1";
  deployment_id = "d1";
  project_id = "shop";
  worker_id = worker_id;
  address = "10.0.0.1:80";
  status = healthy;
  updated_at = some (pos 1);
}

abbrev services : ServiceRegistry
services = record {
  heap = endpoint "w1" ∷ [];
  endpoints = ("i1", 0) ∷ [];
  by_worker = ("w1", ("i1", 0) ∷ []) ∷ [];
  by_project = ("shop", ("i1", 0) ∷ []) ∷ [];
  router = some router;
}

evict_worker_endpoints-IsOut_example :
    IsOut (endpoint "w1") 0 (evict_worker_endpoints (pos 9) "w1" services).1
unfolding lookup
evict_worker_endpoints-IsOut_example =
    evict_worker_endpoints-IsOut (pos 9) "w1" "i1" 0 (endpoint "w1") services (here refl) refl

abbrev sick_endpoint : Endpoint
sick_endpoint = record (endpoint "w1") { status = unhealthy; updated_at = some (pos 9) }

abbrev sick_services : ServiceRegistry
sick_services = record services {
  heap = sick_endpoint ∷ [];
  router = some (record router { targets = ("shop", second_target ∷ []) ∷ [] });
}

w1-w2 : (endpoint "w1").worker_id ≢ (endpoint "w2").worker_id
w1-w2 e = absurd (ground (arith, eq_iff "w1" "w2"))

has_address : (endpoint "w2").address ≢ ""
has_address e = absurd (ground (arith, eq_iff (endpoint "w2").address ""))

moved-loses_route_example :
    let before = moved parse (pos 5) (endpoint "w1") (endpoint "w2") (some router) in
    let t = (evict_worker_endpoints (pos 9) "w1" before).1 in
    (routes "shop" "i1" before ≡ true)
    × (routes "shop" "i1" t ≡ false)
    × (p : ℕ) × (ep : Endpoint) × (lookup "i1" t.endpoints ≡ some p)
    × (get_elem? t.heap p ≡ some ep)
    × (ep.status ≡ healthy)
    × (ep.worker_id ≡ "w2")
moved-loses_route_example =
    moved-loses_route parse (pos 5) (pos 9) (endpoint "w1") (endpoint "w2") router _ refl refl w1-w2
      refl has_address refl
