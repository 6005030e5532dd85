-- ===== src/Scheduler/Filter/Schedulability.antt =====
-- The filter of the scheduler against EvaluateSchedulability (internal/workers/schedulability.go)
-- and CanAcceptWork (internal/workers/drain.go), which state the same rules a second time.
use almichot_cloud.Prelude.{ℤ, pos, ◌≡◌, true, false, arith, ok, some, String}
use mathlib.Core.Path.{subst}
use almichot_cloud.Workers.Model.{
  Worker, evaluate_schedulability, can_accept_work, is_build_worker, is_unreachable,
}
use almichot_cloud.Workers.Registry.{Registry, get, set_partitioned}
use almichot_cloud.Workers.Access.{with_worker-get}
use almichot_cloud.Scheduler.Filter.{WorkloadRequirement, feasible, labels_match, is_build_req}

-- The filter keeps the two fleets apart: what passes it is a build worker exactly when the
-- workload asks for one, has every required label and can accept work.
pub feasible-can_accept_work :
    (req : WorkloadRequirement) (w : Worker)
    → feasible req w ≡ true
    → (is_build_worker w ≡ is_build_req req)
      × (labels_match w.labels req.required_labels ≡ true)
      × (can_accept_work w ≡ true)
unfolding feasible can_accept_work
feasible-can_accept_work req w h = (ground arith, ground arith, ground arith)

-- A worker that passes the filter, and is neither unreachable nor marked as partitioned, is
-- schedulable.
pub feasible-allowed :
    (req : WorkloadRequirement) (w : Worker)
    → feasible req w ≡ true
    → is_unreachable w.health ≡ false
    → w.is_partitioned ≡ false
    → (evaluate_schedulability w).allowed ≡ true
unfolding feasible evaluate_schedulability
feasible-allowed req w h u p = ground arith

-- A schedulable worker of the right fleet with the required labels passes the filter of a workload
-- that needs one slot.
pub allowed-feasible :
    (req : WorkloadRequirement) (w : Worker)
    → req.required_capacity ≡ pos 1
    → is_build_worker w ≡ is_build_req req
    → labels_match w.labels req.required_labels ≡ true
    → (evaluate_schedulability w).allowed ≡ true
    → feasible req w ≡ true
unfolding feasible evaluate_schedulability
allowed-feasible req w c b l h = ground arith

-- Marking a worker as partitioned does not take it out of the scheduler's reach unless it was out
-- of it before: if it passed the filter, it passes it still, although EvaluateSchedulability now
-- refuses it.
pub partitioned-feasible :
    (req : WorkloadRequirement) (r s : Registry) (now : ℤ) (k : String) (v w : Worker)
    → get k r ≡ some w
    → feasible req w ≡ true
    → set_partitioned now k true r ≡ ok (v, s)
    → (feasible req v ≡ true) × ((evaluate_schedulability v).allowed ≡ false)
unfolding feasible evaluate_schedulability set_partitioned is_build_worker
partitioned-feasible req r s now k v w g f h =
    let (p, e) = with_worker-get k r _ w g h in
    subst
      (λ (x : Worker × Registry).
        (feasible req x.0 ≡ true) × ((evaluate_schedulability x.0).allowed ≡ false))
      e (ground arith, ground arith)
