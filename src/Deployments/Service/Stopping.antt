-- ===== src/Deployments/Service/Stopping.antt =====
-- internal/deployments/service.go: StopDeployment, and the reads GetDeployment and
-- ListDeployments. The errors and the answers of StopContainer are not looked at: a request that
-- a client was found for is recorded.
use almichot_cloud.Prelude.{
  String, Option, none, some, List, [], ◌∷◌, ◌++◌, str_eq, if◌then◌else◌, Result, ok, err,
}
use almichot_cloud.Workers.Model.{Worker}
use almichot_cloud.Workers.Registry
use almichot_cloud.Balancer.{unregister_target}
use almichot_cloud.Deployments.Lifecycle.{Deployment, Instance, DeploymentStatus, stopped}
use almichot_cloud.Deployments.Repository
use almichot_cloud.Deployments.Repository.{list}
use almichot_cloud.Deployments.Instances.{list_by_deployment}
use almichot_cloud.Deployments.Service.{
  WorkerClient, Collaborators, repository_error, Service, Answer, refused, Progress, set_status_of,
  save_instance,
}

abbrev pub logged : Worker → Instance → Result String WorkerClient → Service → Service
logged w x (err e) s = s
logged w x (ok client) s = record s {
  stops = s.stops ++ record { worker_key = w.worker_key; instance_id = x.instance_key } ∷ [];
}

abbrev pub stop_at : Collaborators → Instance → Option Worker → Service → Service
stop_at c x none s = s
stop_at c x (some w) s = logged w x (c.client w) s

-- StopContainer on the instance's worker, where it has one that is registered and reachable.
unfoldable pub send_stop : Collaborators → Instance → Service → Service
send_stop c x s =
    if str_eq x.worker_id "" then s else stop_at c x (Registry.get x.worker_id s.registry) s

unfoldable pub unroute : String → String → Service → Service
unroute project instance_id s =
    if str_eq project ""
    then s
    else record s { router = unregister_target project instance_id s.router }

-- The body of the loop over the instances.
unfoldable pub stop_instance : Collaborators → String → Instance → Service → Service
unfolding send_stop save_instance unroute
stop_instance c project x s =
    let saved = save_instance c.now (record x { status = "STOPPED" }) (send_stop c x s) in
    unroute project saved.0.id saved.1

unfoldable pub stop_instances : Collaborators → String → List Instance → Service → Service
unfolding stop_instance
stop_instances c project [] s = s
stop_instances c project (x ∷ xs) s = stop_instances c project xs (stop_instance c project x s)

-- The end of a deployment that is taken out of service: its record, and the desired state STOPPED of
-- the copy that is handed back.
abbrev pub retire :
    Collaborators → String → DeploymentStatus → String → Deployment → Service → Progress
retire c id status stage d s =
    let p = set_status_of c.now id status stage (record { dep = d; svc = s }) in
    record p { dep = record p.dep { desired_state = "STOPPED" } }

abbrev stop_found :
    Collaborators → String → Service → Result Repository.Error Deployment → Answer × Service
stop_found c id s (err e) = (refused (repository_error e), s)
stop_found c id s (ok d) =
    let p =
      retire c id stopped "STOPPED" d
        (stop_instances c d.project_id (list_by_deployment id s.instances) s) in
    (record { dep = some p.dep; instances = []; error = none }, p.svc)

unfoldable pub stop_deployment : Collaborators → String → Service → Answer × Service
unfolding set_status_of stop_instances
stop_deployment c id s = stop_found c id s (Repository.get_by_id id s.deployments)

unfoldable pub get_deployment :
    String → Service → Result Repository.Error (Deployment × List Instance)
get_deployment id s = elim (Repository.get_by_id id s.deployments) [
  | err e ↦ err e
  | ok d ↦ ok (d, list_by_deployment id s.instances)
]

unfoldable pub list_deployments : String → Service → List Deployment
list_deployments project s = list project s.deployments
