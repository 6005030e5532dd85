-- ===== src/Tests/Rollout.antt =====
-- The deployment service on concrete data: a deployment, its scaling, its end and a rollback.
use Prim.Native.String.{◌++◌ as text_append}
use almichot_cloud.Prelude.{
  pos, ◌+◌, String, ◌≡◌, refl, false, none, some, In, [], ◌∷◌, ok, err, arith, eq_iff, length,
  lookup, filter, decimal, int_sub, int_add, wrap, ◌≢◌,
}
use almichot_cloud.Scheduler.Filter.{filter_workers, labels_match}
use almichot_cloud.Scheduler.Rank.{rank}
use almichot_cloud.Workers.Model.{is_build_worker}
use almichot_cloud.Workers.Registry.{update_workload}
use almichot_cloud.Balancer.{new_router}
use almichot_cloud.Balancer.Targets.{has_target}
use almichot_cloud.Scheduler.Select.{select_worker}
use almichot_cloud.Deployments.Lifecycle.{Deployment, running, stopped, Instance}
use almichot_cloud.Deployments.Repository.{get_by_id}
use almichot_cloud.Deployments.Instances.{no_instances, Instances, list_by_deployment}
use almichot_cloud.Deployments.Releases.{Release, no_releases, list_by_project}
use almichot_cloud.Deployments.Events.{
  Event, no_events, list_by_deployment as events_of, list_by_project as project_events, list_all,
}
use almichot_cloud.Deployments.Events.{list_by_project-reverse}
use almichot_cloud.Deployments.Service.{
  Collaborators, CreateDeploymentParams, Service, connect_failed,
}
use almichot_cloud.Deployments.Service.Creation.{create_and_deploy, new_deployment}
use almichot_cloud.Deployments.Service.Recorded.{create_and_deploy-HasStatus}
use almichot_cloud.Deployments.Service.Conformance.{IsCreated, create_and_deploy-IsCreated}
use almichot_cloud.Deployments.Service.Stopping.{stop_deployment}
use almichot_cloud.Deployments.Service.Retired.{
  HasStatus, stop_deployment-retires, stop_deployment-registry,
}
use almichot_cloud.Deployments.Service.RollingBack.{rollback, previous_release}
use almichot_cloud.Deployments.Service.Spared.{Spares}
use almichot_cloud.Deployments.Service.Restored.{Restores, rollback-Spares, rollback-Restores}
use almichot_cloud.Deployments.Service.Scaling.{scale_deployment, is_active}
use almichot_cloud.Deployments.Service.Previous.{IsFirst}
use almichot_cloud.Deployments.Service.Scaled.{IsSized, HasScale, scale_deployment-IsSized}
use almichot_cloud.Tests.Data.{worker, registry_of, deployment, instance_of, whole_floats}

abbrev collaborators : Collaborators
collaborators = record {
  now = pos 7;
  uuid = λ n. text_append "00000000-" (decimal (pos n));
  free_port = λ n. pos (30000 + n);
  floats = whole_floats;
  parse = some;
  client = λ w. ok (record {
    run_container =
        λ req. ok (record { container_id = text_append "ctr-" req.instance_id; error = "" });
  });
  build = λ project source tag env. err "no builder";
  registry_client = record {
    push = λ tag bytes digest. ok digest;
    get_digest = λ tag. ok "sha256:1";
  };
  signer = none;
  secrets = none;
  has_redactor = false;
  crash_hook = λ s. none;
}

abbrev params : CreateDeploymentParams
params = record {
  project_id = "shop";
  source_path = "";
  image = "shop:2";
  instance_count = pos 2;
  env = [];
  labels = [];
  ports = [];
}

abbrev fresh : Service
fresh = record {
  deployments = [];
  instances = no_instances;
  releases = no_releases;
  events = no_events;
  registry = registry_of worker;
  router = new_router;
  elector = none;
  draws = 0;
  dispatched = [];
  stops = [];
  snapshots = [];
  redacted = [];
  writes = [];
}

two_run : length (create_and_deploy collaborators params fresh).0.instances ≡ 2
unfolding create_and_deploy decimal select_worker update_workload filter_workers int_sub wrap
    labels_match lookup is_build_worker rank int_add
two_run = refl

create_and_deploy-IsCreated_example :
    let (a, t) = create_and_deploy collaborators params fresh in
    IsCreated fresh 2 a.dep a.instances a.error t
create_and_deploy-IsCreated_example = create_and_deploy-IsCreated collaborators params fresh

abbrev rolled_out : Deployment
rolled_out = record (new_deployment params "00000000-0") {
  image_digest = "sha256:1";
  status = running;
  stage = "RUNNING";
  created_at = some (pos 7);
  updated_at = some (pos 7);
}

rolled_out-dep : (create_and_deploy collaborators params fresh).0.dep ≡ some rolled_out
unfolding create_and_deploy decimal select_worker update_workload filter_workers int_sub wrap
    labels_match lookup is_build_worker rank int_add
rolled_out-dep = refl

create_and_deploy-HasStatus_example :
    HasStatus "00000000-0" running (create_and_deploy collaborators params fresh).1
create_and_deploy-HasStatus_example =
    create_and_deploy-HasStatus collaborators params fresh rolled_out rolled_out-dep

-- One running instance of "d1", with its route.
abbrev stored : Instances
stored = record {
  heap = instance_of "RUNNING" ∷ [];
  instances = ("i1", 0) ∷ [];
  by_key = ("shop-1", 0) ∷ [];
}

abbrev old_release : Release
old_release = record {
  id = "r0";
  project_id = "shop";
  deployment_id = "d0";
  version = "v0";
  image_ref = "shop:0";
  image_digest = "sha256:0";
  signature = "";
  created_at = some (pos 1);
}

abbrev deployed : Service
deployed = record fresh {
  deployments = ("d1", deployment running) ∷ [];
  instances = stored;
  releases = ("r0", old_release) ∷ [];
  router = record {
    targets = ("shop", record { instance_id = "i1"; url = "http://10.0.0.1:30000" } ∷ []) ∷ [];
    counter = 0;
  };
}

stop_deployment-retires_example :
    let (a, t) = stop_deployment collaborators "d1" deployed in
    (a.error ≡ none)
    × ((x : Deployment) × (a.dep ≡ some x)
        × (x.id ≡ "d1")
        × (x.status ≡ stopped)
        × (x.desired_state ≡ "STOPPED"))
    × HasStatus "d1" stopped t
    × ((x : Instance)
        → (deployment running).project_id ≢ ""
        → In x (list_by_deployment "d1" deployed.instances)
        → has_target "shop" x.id t.router ≡ false)
unfolding lookup
stop_deployment-retires_example =
    stop_deployment-retires collaborators "d1" deployed (deployment running) refl

stop_deployment-registry_example :
    (stop_deployment collaborators "d1" deployed).1.registry ≡ registry_of worker
stop_deployment-registry_example = stop_deployment-registry collaborators "d1" deployed

-- No worker can be reached.
abbrev cut_off : Collaborators
cut_off = record collaborators { client = λ w. err "refused" }

rollback-Spares_example : Spares "00000000-0" deployed (rollback cut_off "d1" deployed).1
unfolding rollback decimal get_by_id list_by_project select_worker update_workload filter_workers
    int_sub wrap labels_match lookup is_build_worker rank int_add
rollback-Spares_example =
    rollback-Spares cut_off "d1" deployed (connect_failed "node-1" "refused") refl

rollback-Restores_example :
    let (a, t) = rollback collaborators "d1" deployed in
    let chosen =
      previous_release "d1" deployed.deployments (list_by_project "shop" deployed.releases) in
    IsFirst "d1" deployed.deployments (list_by_project "shop" deployed.releases) chosen
    × Restores (deployment running) chosen a t
unfolding rollback decimal get_by_id list_by_project select_worker update_workload filter_workers
    int_sub wrap labels_match lookup is_build_worker rank int_add
rollback-Restores_example =
    rollback-Restores collaborators "d1" deployed (deployment running) refl refl
      (ground (arith, eq_iff "00000000-0" "d1")) refl

scale_deployment-IsSized_example :
    let (a, t) = scale_deployment collaborators "d1" (pos 3) deployed in
    IsSized collaborators "shop" 3
      (filter is_active (list_by_deployment "d1" deployed.instances))
      a.instances
      a.error
      deployed
      t
    × (a.error ≡ none → HasScale "d1" (pos 3) t)
unfolding lookup
scale_deployment-IsSized_example =
    scale_deployment-IsSized collaborators "d1" (pos 3) deployed (deployment running) refl refl refl
      refl

three_run : length (scale_deployment collaborators "d1" (pos 3) deployed).0.instances ≡ 3
unfolding scale_deployment get_by_id list_by_deployment decimal select_worker update_workload
    filter_workers int_sub wrap labels_match lookup is_build_worker rank int_add
three_run = refl

abbrev event_of : String → Event
event_of name = record {
  id = name;
  project_id = "shop";
  deployment_id = "d1";
  event_type = name;
  message = "";
  metadata = none;
  created_at = some (pos 1);
}

list_by_project-reverse_example :
    (project_events "shop" (event_of "e1" ∷ event_of "e2" ∷ [])
      ≡ event_of "e2" ∷ event_of "e1" ∷ [])
    × (events_of "shop" (event_of "e1" ∷ event_of "e2" ∷ []) ≡ [])
unfolding list_all
list_by_project-reverse_example =
    list_by_project-reverse "shop" (event_of "e1" ∷ event_of "e2" ∷ [])
