-- ===== src/Scheduler/Filter.antt =====
-- internal/scheduler/filter.go and constraints.go: the hard constraints of a placement.
pub mod Schedulability
use almichot_cloud.Prelude.{
  ℤ, pos, String, Bool, true, false, not, ◌&&◌, ◌||◌, Option, none, some, List, [], ◌∷◌, Map,
  lookup, str_eq, filter, if◌then◌else◌, leb_ℤ, ltb_ℤ, int_sub,
}
use almichot_cloud.Workers.Model.{
  Worker, is_draining, is_ready, is_unhealthy, is_build_worker, capability_build,
}

pub record WorkloadRequirement : Type 0 where
  pub deployment_id : String
  pub required_capacity : ℤ
  pub required_labels : Map String

-- Reading a missing key of a Go map gives the empty string.
abbrev pub or_empty : Option String → String
or_empty none = ""
or_empty (some s) = s

-- The loop over the required labels.
unfoldable pub labels_match : Map String → Map String → Bool
labels_match labels [] = true
labels_match labels ((k, v) ∷ more) =
    str_eq (or_empty (lookup k labels)) v && labels_match labels more

abbrev pub effective_capacity : WorkloadRequirement → ℤ
effective_capacity req =
    if leb_ℤ req.required_capacity (pos 0) then pos 1 else req.required_capacity

abbrev pub is_build_req : WorkloadRequirement → Bool
is_build_req req = str_eq (or_empty (lookup "capability" req.required_labels)) capability_build

-- The body of the loop: whether a candidate passes every rule.
unfoldable pub feasible : WorkloadRequirement → Worker → Bool
feasible req w =
    if not w.schedulable || is_draining w.state
    then false
    else if not (is_ready w.state)
    then false
    else if is_unhealthy w.health
    then false
    else if ltb_ℤ (int_sub w.capacity w.active_workloads) (effective_capacity req)
    then false
    else if not (labels_match w.labels req.required_labels)
    then false
    else if is_build_req req && not (is_build_worker w)
    then false
    else if not (is_build_req req) && is_build_worker w
    then false
    else true

-- Filter
unfoldable pub filter_workers : List Worker → WorkloadRequirement → List Worker
unfolding feasible
filter_workers candidates req = filter (feasible req) candidates
