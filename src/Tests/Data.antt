-- ===== src/Tests/Data.antt =====
-- The data that the tests share: a cluster of one worker and what a deployment leaves on it.
use almichot_cloud.Prelude.{
  ℤ, pos, ◌*◌, ◌+◌, String, true, false, some, [], ◌∷◌, pos_part, neg_part, int_sub, int_div, ltb_ℤ,
  leb_ℤ,
}
use almichot_cloud.Workers.Model.{Worker, ready, healthy}
use almichot_cloud.Workers.Health.{default_health_config}
use almichot_cloud.Workers.Repository.{Table}
use almichot_cloud.Workers.Registry.{Registry}
use almichot_cloud.Workers.Registration.{RegisterParams}
use almichot_cloud.Scheduler.Filter.{WorkloadRequirement}
use almichot_cloud.Scheduler.Rank.{Floats}
use almichot_cloud.Autoscaler.{MetricFloats}
use almichot_cloud.Deployments.Lifecycle.{Deployment, DeploymentStatus, Instance}

abbrev pub params : RegisterParams
params = record {
  worker_key = "node-1";
  hostname = "node-1.local";
  ip_address = "10.0.0.1";
  grpc_port = pos 9090;
  capacity = pos 4;
  labels = [];
}

abbrev pub worker : Worker
worker = record {
  id = "w1";
  worker_key = "node-1";
  hostname = "node-1.local";
  ip_address = "10.0.0.1";
  grpc_port = pos 9090;
  capacity = pos 4;
  labels = [];
  state = ready;
  health = healthy;
  schedulable = true;
  active_workloads = pos 0;
  last_beat_at = some (pos 5);
  consecutive_beats = pos 0;
  consecutive_misses = pos 0;
  is_partitioned = false;
  created_at = some (pos 5);
  updated_at = some (pos 6);
}

abbrev pub table_of : Worker → Table
table_of w = record { heap = w ∷ []; workers = ("node-1", 0) ∷ []; by_id = ("w1", 0) ∷ [] }

-- A registry with one worker under both of its names.
abbrev pub registry_of : Worker → Registry
registry_of w = record { cache = table_of w; repo = table_of w; health_cfg = default_health_config }

abbrev pub requirement : WorkloadRequirement
requirement = record { deployment_id = "d1"; required_capacity = pos 1; required_labels = [] }

-- Whole numbers in the place of floats.
abbrev pub whole_floats : Floats
whole_floats = record {
  F = ℤ;
  of_int = λ n. n;
  div = λ a b. int_div a (pos_part b);
  sub = int_sub;
  abs = λ a. pos (pos_part a + neg_part a);
  lt = ltb_ℤ;
  one = pos 1;
  epsilon = pos 0;
}

abbrev pub whole_metrics : MetricFloats
whole_metrics = record {
  F = ℤ;
  of_int = λ n. n;
  mul = λ a b. pos (pos_part a * pos_part b);
  div = λ a b. int_div a (pos_part b);
  sub = int_sub;
  abs = λ a. pos (pos_part a + neg_part a);
  le = leb_ℤ;
  lt = ltb_ℤ;
  zero_float = pos 0;
  tenth = pos 0;
  one_float = pos 1;
  ceil_int = λ n. n;
  floor_int = λ n. n;
}

abbrev pub deployment : DeploymentStatus → Deployment
deployment s = record {
  id = "d1";
  project_id = "shop";
  revision = "r1";
  image = "shop:1";
  image_digest = "";
  desired_state = "RUNNING";
  status = s;
  stage = "";
  instance_count = pos 1;
  desired_replicas = pos 1;
  env = [];
  labels = [];
  created_at = some (pos 1);
  updated_at = some (pos 1);
}

abbrev pub instance_of : String → Instance
instance_of status = record {
  id = "i1";
  deployment_id = "d1";
  worker_id = "w1";
  instance_key = "shop-1";
  status = status;
  container_id = "";
  created_at = some (pos 1);
  updated_at = some (pos 1);
}
