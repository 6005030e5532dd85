-- ===== src/Discovery.antt =====
-- internal/discovery: the registry of service endpoints, which keeps the load balancer's table.
-- The three maps of the source point at shared records: `heap` holds the records and the maps hold
-- positions in it. `now` is the source's reading of the clock.
pub mod Routing
pub mod Stale
use almichot_cloud.Prelude.{
  ℤ, ℕ, String, Bool, true, false, not, ◌&&◌, Option, none, some, List, [], ◌∷◌, ◌++◌, Map, lookup,
  insert, delete, length, get_elem?, set, str_eq, if◌then◌else◌, Result, ok, err,
}
use almichot_cloud.Balancer.{Router, register_target, unregister_target}

pub data EndpointStatus : Type 0 where
  healthy unhealthy : EndpointStatus

pub record Endpoint : Type 0 where
  pub instance_id : String
  pub deployment_id : String
  pub project_id : String
  pub worker_id : String
  pub address : String
  pub status : EndpointStatus
  pub updated_at : Option ℤ

pub record ServiceRegistry : Type 0 where
  pub heap : List Endpoint
  pub endpoints : Map ℕ
  pub by_worker : Map (Map ℕ)
  pub by_project : Map (Map ℕ)
  pub router : Option Router

-- NewServiceRegistry
abbrev pub new_service_registry : Option Router → ServiceRegistry
new_service_registry router = record {
  heap = [];
  endpoints = [];
  by_worker = [];
  by_project = [];
  router = router;
}

pub data Error : Type 0 where
  invalid_target : Error
  endpoint_not_found : Error

abbrev pub is_healthy : EndpointStatus → Bool
is_healthy healthy = true
is_healthy unhealthy = false

-- The inner map of a worker or a project; a missing one is empty.
abbrev pub group : String → Map (Map ℕ) → Map ℕ
group k m = elim (lookup k m) [ none ↦ [] | some g ↦ g ]

abbrev pub enter_in : String → String → ℕ → Map (Map ℕ) → Map (Map ℕ)
enter_in outer inner p m = insert outer (insert inner p (group outer m)) m

-- A deletion from an inner map, if that is there.
abbrev pub delete_in : String → String → Map (Map ℕ) → Map (Map ℕ)
delete_in outer inner m = elim (lookup outer m) [
  | none ↦ m
  | some g ↦ insert outer (delete inner g) m
]

-- The endpoint as it is entered in the three maps.
unfoldable pub enter : Endpoint → ServiceRegistry → ServiceRegistry
enter ep s =
    let p = length s.heap in
    record s {
      heap = s.heap ++ ep ∷ [];
      endpoints = insert ep.instance_id p s.endpoints;
      by_worker = enter_in ep.worker_id ep.instance_id p s.by_worker;
      by_project = enter_in ep.project_id ep.instance_id p s.by_project;
    }

abbrev stamp : ℤ → Option ℤ → Option ℤ
stamp now none = some now
stamp now (some t) = some t

abbrev pub stamped : ℤ → Endpoint → Endpoint
stamped now ep = record ep { updated_at = stamp now ep.updated_at }

module _ (parse : String → Option String) where
  -- The target that a healthy endpoint with an address gets. An error of the router is handed on
  -- with the maps already changed.
  abbrev pub routed : Endpoint → ServiceRegistry → Option Router → Option Error × ServiceRegistry
  routed ep s none = (none, s)
  routed ep s (some r) =
      if is_healthy ep.status && not (str_eq ep.address "")
      then elim (register_target parse ep.project_id ep.instance_id ep.address r) [
        | none ↦ (some invalid_target, s)
        | some r' ↦ (none, record s { router = some r' })
      ]
      else (none, s)

  -- RegisterEndpoint
  unfoldable pub register_endpoint : ℤ → Endpoint → ServiceRegistry → Option Error × ServiceRegistry
  unfolding enter register_target
  register_endpoint now ep s = routed (stamped now ep) (enter (stamped now ep) s) s.router

  -- The router's change in SetEndpointHealth; the error of RegisterTarget is dropped.
  abbrev pub rerouted : Bool → Endpoint → Option Router → Option Router
  rerouted healthy_now ep none = none
  rerouted false ep (some r) = some (unregister_target ep.project_id ep.instance_id r)
  rerouted true ep (some r) =
      if not (is_healthy ep.status) && not (str_eq ep.address "")
      then elim (register_target parse ep.project_id ep.instance_id ep.address r) [
        | none ↦ some r
        | some r' ↦ some r'
      ]
      else some r

  abbrev pub set_health_at :
      ℤ
      → Bool
      → ServiceRegistry
      → Option ℕ
      → Option Endpoint
      → Result Error (Endpoint × ServiceRegistry)
  set_health_at now h s (some p) (some ep) =
      let ep' = record ep { status = if h then healthy else unhealthy; updated_at = some now } in
      ok (ep', record s { heap = set s.heap p ep'; router = rerouted h ep s.router })
  set_health_at now h s _ _ = err endpoint_not_found

  -- SetEndpointHealth
  unfoldable pub set_endpoint_health :
      ℤ → String → Bool → ServiceRegistry → Result Error (Endpoint × ServiceRegistry)
  unfolding register_target
  set_endpoint_health now instance_id h s =
      let p = lookup instance_id s.endpoints in
      set_health_at now h s p (elim p [ none ↦ none | some q ↦ get_elem? s.heap q ])

abbrev pub unrouted : Endpoint → Option Router → Option Router
unrouted ep none = none
unrouted ep (some r) = some (unregister_target ep.project_id ep.instance_id r)

abbrev remove_endpoint : String → ServiceRegistry → Option Endpoint → ServiceRegistry
remove_endpoint instance_id s none = s
remove_endpoint instance_id s (some ep) = record s {
  endpoints = delete instance_id s.endpoints;
  by_worker = delete_in ep.worker_id instance_id s.by_worker;
  by_project = delete_in ep.project_id instance_id s.by_project;
  router = elim s.router [
    | none ↦ none
    | some r ↦ some (unregister_target ep.project_id instance_id r)
  ];
}

-- UnregisterEndpoint
unfoldable pub unregister_endpoint : String → ServiceRegistry → ServiceRegistry
unfolding unregister_target
unregister_endpoint instance_id s =
    remove_endpoint instance_id s
      (elim (lookup instance_id s.endpoints) [ none ↦ none | some q ↦ get_elem? s.heap q ])

-- The body of the loop of EvictWorkerEndpoints, for the record behind one pointer.
abbrev pub evict_one : ℤ → ℕ → ServiceRegistry → Option Endpoint → ServiceRegistry
evict_one now p s none = s
evict_one now p s (some ep) = record s {
  heap = set s.heap p (record ep { status = unhealthy; updated_at = some now });
  router = unrouted ep s.router;
}

unfoldable pub evict_all : ℤ → Map ℕ → ServiceRegistry → ServiceRegistry
evict_all now [] s = s
evict_all now ((i, p) ∷ more) s = evict_all now more (evict_one now p s (get_elem? s.heap p))

abbrev pub keys : Map ℕ → List String
keys [] = []
keys ((i, p) ∷ more) = i ∷ keys more

-- EvictWorkerEndpoints, with the evicted instances.
unfoldable pub evict_worker_endpoints : ℤ → String → ServiceRegistry → List String × ServiceRegistry
unfolding evict_all
evict_worker_endpoints now worker_id s =
    let g = group worker_id s.by_worker in (keys g, evict_all now g s)

-- The records of an inner map that pass a test.
abbrev pub collect : (Endpoint → Bool) → List Endpoint → Map ℕ → List Endpoint
collect p heap [] = []
collect p heap ((i, q) ∷ more) = elim (get_elem? heap q) [
  | none ↦ collect p heap more
  | some ep ↦ let rest = collect p heap more in if p ep then ep ∷ rest else rest
]

-- GetHealthyEndpoints
unfoldable pub get_healthy_endpoints : String → ServiceRegistry → List Endpoint
get_healthy_endpoints project_id s =
    collect (λ ep. is_healthy ep.status) s.heap (group project_id s.by_project)

-- GetAllEndpoints
unfoldable pub get_all_endpoints : ServiceRegistry → List Endpoint
get_all_endpoints s = collect (λ ep. true) s.heap s.endpoints
