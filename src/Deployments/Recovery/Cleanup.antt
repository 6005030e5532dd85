-- ===== src/Deployments/Recovery/Cleanup.antt =====
-- internal/deployments/recovery.go, cleanupPartialContainers: no container of the deployment is
-- passed over.
use almichot_cloud.Prelude.{
  ℤ, String, ◌≡◌, refl, true, Option, none, some, List, [], ◌∷◌, In, here, there, Result, ok, err,
  Bool-cases, inl, inr, In-append_left, In-append_right,
}
use almichot_cloud.Workers.Model.{Worker, is_healthy}
use almichot_cloud.Workers.Registry.{Registry, list_workers}
use almichot_cloud.Deployments.Recovery.{
  Container, WorkerClient, Stop, has_deployment, stop_partial, stop_listed, stop_at,
  stop_everywhere, cleanup_partial_containers,
}

abbrev Sent : Type 0
Sent = ℤ × List Stop

stop_partial-keeps :
    (id key : String) (client : WorkerClient) (cs : List Container) (acc : Sent) (x : Stop)
    → In x acc.1
    → In x (stop_partial id key client cs acc).1
unfolding stop_partial
stop_partial-keeps id key client [] (n, sent) x v = v
stop_partial-keeps id key client (c ∷ cs) (n, sent) x v =
    elim (Bool-cases (has_deployment id c.labels)) [
      | inl b ↦
          rw (b, stop_partial) (stop_partial-keeps id key client cs _ x (In-append_left sent _ v))
      | inr b ↦ rw (b, stop_partial) (stop_partial-keeps id key client cs (n, sent) x v)
    ]

stop_partial-In :
    (id key : String) (client : WorkerClient) (cs : List Container) (acc : Sent) (c : Container)
    → In c cs
    → has_deployment id c.labels ≡ true
    → In
        (record { worker_key = key; instance_id = c.instance_id })
        (stop_partial id key client cs acc).1
unfolding stop_partial
stop_partial-In id key client [] acc c v b = elim v [ ]
stop_partial-In id key client (y ∷ cs) (n, sent) c (here e) b =
    rw (stop_partial, ← e, b)
      (stop_partial-keeps id key client cs _ _ (In-append_right sent _ (here refl)))
stop_partial-In id key client (y ∷ cs) (n, sent) c (there v) b =
    stop_partial-In id key client cs _ c v b

stop_listed-keeps :
    (id : String) (w : Worker) (client : WorkerClient)
    → (resp : Result String (Option (List Container))) → (acc : Sent) → (x : Stop) → In x acc.1
    → In x (stop_listed id w client resp acc).1
stop_listed-keeps id w client (ok (some cs)) acc x v =
    stop_partial-keeps id w.worker_key client cs acc x v
stop_listed-keeps id w client (ok none) acc x v = v
stop_listed-keeps id w client (err e) acc x v = v

stop_at-keeps :
    (id : String) (w : Worker) (r : Result String WorkerClient) (acc : Sent) (x : Stop)
    → In x acc.1
    → In x (stop_at id w r acc).1
stop_at-keeps id w (ok client) acc x v =
    stop_listed-keeps id w client client.list_containers acc x v
stop_at-keeps id w (err e) acc x v = v

stop_everywhere-keeps :
    (id : String) (factory : Worker → Result String WorkerClient) (ws : List Worker) (acc : Sent)
    → (x : Stop) → In x acc.1
    → In x (stop_everywhere id factory ws acc).1
unfolding stop_everywhere
stop_everywhere-keeps id factory [] acc x v = v
stop_everywhere-keeps id factory (w ∷ ws) acc x v = elim (Bool-cases (is_healthy w.health)) [
  | inl b ↦
      rw (b, stop_everywhere)
        (stop_everywhere-keeps id factory ws _ x (stop_at-keeps id w (factory w) acc x v))
  | inr b ↦ rw (b, stop_everywhere) (stop_everywhere-keeps id factory ws acc x v)
]

stop_everywhere-In :
    (id : String) (factory : Worker → Result String WorkerClient) (ws : List Worker) (acc : Sent)
    → (w : Worker) (client : WorkerClient) (cs : List Container) (c : Container) → In w ws
    → is_healthy w.health ≡ true
    → factory w ≡ ok client
    → client.list_containers ≡ ok (some cs)
    → In c cs
    → has_deployment id c.labels ≡ true
    → In
        (record { worker_key = w.worker_key; instance_id = c.instance_id })
        (stop_everywhere id factory ws acc).1
unfolding stop_everywhere
stop_everywhere-In id factory [] acc w client cs c v healthy f l u b = elim v [ ]
stop_everywhere-In id factory (y ∷ ws) acc w client cs c (here e) healthy f l u b =
    rw (stop_everywhere, ← e, healthy, f, l)
      (stop_everywhere-keeps id factory ws _ _
        (stop_partial-In id w.worker_key client cs acc c u b))
stop_everywhere-In id factory (y ∷ ws) acc w client cs c (there v) healthy f l u b =
    stop_everywhere-In id factory ws _ w client cs c v healthy f l u b

-- For every container that a healthy, reachable worker lists with the label of the deployment, the
-- cleanup sends a stop request for that instance to that worker.
pub cleanup_partial_containers-In :
    (id : String) (r : Registry) (factory : Worker → Result String WorkerClient) (w : Worker)
    → (client : WorkerClient) (cs : List Container) (c : Container) → In w (list_workers r)
    → is_healthy w.health ≡ true
    → factory w ≡ ok client
    → client.list_containers ≡ ok (some cs)
    → In c cs
    → has_deployment id c.labels ≡ true
    → In
        (record { worker_key = w.worker_key; instance_id = c.instance_id })
        (cleanup_partial_containers id (some r) (some factory)).1
unfolding cleanup_partial_containers
cleanup_partial_containers-In id r factory w client cs c v healthy f l u b =
    stop_everywhere-In id factory (list_workers r) _ w client cs c v healthy f l u b
