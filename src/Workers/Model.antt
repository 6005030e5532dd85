-- ===== src/Workers/Model.antt =====
-- internal/workers/model.go, schedulability.go and drain.go: a worker and the tests on it.
-- A nil `Labels` map is the empty map, which every read of the source treats alike. A time is its
-- distance in nanoseconds from a fixed instant, and `none` is the zero `time.Time`.
use almichot_cloud.Prelude.{
  ℤ, pos, String, Bool, true, false, Option, none, some, ◌&&◌, ◌||◌, not, Map, lookup, str_eq,
  if◌then◌else◌, ltb_ℤ, leb_ℤ, int_sub,
}

pub data WorkerState : Type 0 where
  unregistered ready draining down : WorkerState

pub data WorkerHealth : Type 0 where
  unknown healthy suspected unhealthy unreachable : WorkerHealth

pub record Worker : Type 0 where
  pub id : String
  pub worker_key : String
  pub hostname : String
  pub ip_address : String
  pub grpc_port : ℤ
  pub capacity : ℤ
  pub labels : Map String
  pub state : WorkerState
  pub health : WorkerHealth
  pub schedulable : Bool
  pub active_workloads : ℤ
  pub last_beat_at : Option ℤ
  pub consecutive_beats : ℤ
  pub consecutive_misses : ℤ
  pub is_partitioned : Bool
  pub created_at : Option ℤ
  pub updated_at : Option ℤ

-- The comparisons `w.State == …` and `w.Health == …`.
abbrev pub is_ready : WorkerState → Bool
is_ready ready = true
is_ready _ = false

abbrev pub is_draining : WorkerState → Bool
is_draining draining = true
is_draining _ = false

abbrev pub is_healthy : WorkerHealth → Bool
is_healthy healthy = true
is_healthy _ = false

abbrev pub is_suspected : WorkerHealth → Bool
is_suspected suspected = true
is_suspected _ = false

abbrev pub is_unhealthy : WorkerHealth → Bool
is_unhealthy unhealthy = true
is_unhealthy _ = false

abbrev pub is_unreachable : WorkerHealth → Bool
is_unreachable unreachable = true
is_unreachable _ = false

abbrev pub health_eq : WorkerHealth → WorkerHealth → Bool
health_eq unknown unknown = true
health_eq healthy healthy = true
health_eq suspected suspected = true
health_eq unhealthy unhealthy = true
health_eq unreachable unreachable = true
health_eq _ _ = false

unfoldable pub available_capacity : Worker → ℤ
available_capacity w =
    let available = int_sub w.capacity w.active_workloads in
    if ltb_ℤ available (pos 0) then pos 0 else available

abbrev pub capability_build : String
capability_build = "build"

abbrev pub capability_runtime : String
capability_runtime = "runtime"

-- The default stands in where the label is missing or empty.
abbrev pub or_default : Option String → String
or_default none = capability_runtime
or_default (some c) = if str_eq c "" then capability_runtime else c

unfoldable pub capability : Worker → String
capability w = or_default (lookup "capability" w.labels)

unfoldable pub is_build_worker : Worker → Bool
unfolding capability
is_build_worker w = str_eq (capability w) capability_build

unfoldable pub is_runtime_worker : Worker → Bool
unfolding is_build_worker
is_runtime_worker w = not (is_build_worker w)

-- schedulability.go
pub record EvaluationResult : Type 0 where
  pub allowed : Bool
  pub reason : String

unfoldable pub evaluate_schedulability : Worker → EvaluationResult
unfolding available_capacity
evaluate_schedulability w =
    if not w.schedulable
    then record { allowed = false; reason = "worker schedulable flag is false" }
    else if is_draining w.state
    then record { allowed = false; reason = "worker is draining" }
    else if not (is_ready w.state)
    then record { allowed = false; reason = "worker state is not ready" }
    else if is_unhealthy w.health || is_unreachable w.health || w.is_partitioned
    then record { allowed = false; reason = "worker is unhealthy or partitioned" }
    else if leb_ℤ (available_capacity w) (pos 0)
    then record { allowed = false; reason = "worker capacity exhausted" }
    else record { allowed = true; reason = "worker is schedulable" }

-- drain.go
unfoldable pub can_accept_work : Worker → Bool
unfolding available_capacity
can_accept_work w =
    w.schedulable
    && not (is_draining w.state)
    && not (is_unhealthy w.health)
    && ltb_ℤ (pos 0) (available_capacity w)
