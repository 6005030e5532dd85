-- ===== src/Scheduler/Select.antt =====
-- internal/scheduler/scheduler.go: SelectWorker. The provider of instance counts is a callback of
-- the source, so it is an argument: none where it is not set, and `none` where it fails.
pub mod Choice
use almichot_cloud.Prelude.{
  ℤ, ℕ, String, Bool, not, Option, none, some, List, [], ◌∷◌, Map, Result, ok, err, length, str_eq,
  if◌then◌else◌,
}
use almichot_cloud.Workers.Model.{Worker}
use almichot_cloud.Workers.Registry.{Registry, list_workers}
use almichot_cloud.Scheduler.Filter.{WorkloadRequirement, filter_workers}
use almichot_cloud.Scheduler.Rank.{Floats, rank}

-- `index_panic` is the run-time panic of `ranked[0]` on an empty slice.
pub data SelectError : Type 0 where
  no_workers_registered : SelectError
  no_feasible_workers : ℕ → SelectError
  index_panic : SelectError

abbrev pub CountsProvider : Type 0
CountsProvider = String → Option (Map ℤ)

abbrev or_nil : Option (Map ℤ) → Map ℤ
or_nil none = []
or_nil (some m) = m

-- The counts that the ranking uses: the nil map where there is no provider, no deployment or an
-- error.
abbrev pub deployment_counts : Option CountsProvider → String → Map ℤ
deployment_counts none id = []
deployment_counts (some provider) id = if str_eq id "" then [] else or_nil (provider id)

abbrev pub first_of_ranked : List Worker → Result SelectError Worker
first_of_ranked [] = err index_panic
first_of_ranked (w ∷ ws) = ok w

abbrev pub choose : Floats → Map ℤ → ℕ → List Worker → Result SelectError Worker
choose f counts total [] = err (no_feasible_workers total)
choose f counts total (w ∷ ws) = first_of_ranked (rank f (w ∷ ws) counts)

abbrev pub select_among :
    Floats → Map ℤ → WorkloadRequirement → List Worker → Result SelectError Worker
select_among f counts req [] = err no_workers_registered
select_among f counts req (w ∷ ws) = choose f counts (length (w ∷ ws)) (filter_workers (w ∷ ws) req)

unfoldable pub select_worker :
    Floats → Option CountsProvider → Registry → WorkloadRequirement → Result SelectError Worker
unfolding list_workers
select_worker f provider registry req =
    select_among f (deployment_counts provider req.deployment_id) req (list_workers registry)
