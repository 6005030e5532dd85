-- ===== src/Deployments/Instances.antt =====
-- internal/deployments/repository.go: MemoryInstanceRepository. `instances` and `byKey` point at
-- shared records, so a table keeps the records in `heap` and the maps hold positions in it.
pub mod Shared
use almichot_cloud.Prelude.{
  ℤ, pos, ℕ, String, Bool, true, false, not, ◌&&◌, Option, none, some, List, [], ◌∷◌, ◌++◌, Map,
  lookup, insert, str_eq, if◌then◌else◌, get_elem?, set, length, filter, Result, ok, err, int_add,
}
use almichot_cloud.Deployments.Lifecycle.{Instance}
use almichot_cloud.Deployments.Repository.{Error, instance_not_found, or_now}

pub record Instances : Type 0 where
  pub heap : List Instance
  pub instances : Map ℕ
  pub by_key : Map ℕ

abbrev pub no_instances : Instances
no_instances = record { heap = []; instances = []; by_key = [] }

-- Create stamps the caller's record and enters a copy under its ID and its key; both come back.
unfoldable pub create : ℤ → Instance → Instances → Instance × Instances
create now x t =
    let stamped = record x { created_at = or_now now x.created_at; updated_at = some now } in
    (
      stamped,
      record {
        heap = t.heap ++ stamped ∷ [];
        instances = insert x.id (length t.heap) t.instances;
        by_key = insert x.instance_key (length t.heap) t.by_key;
      },
    )

abbrev pub deref : Instances → Option ℕ → Option Instance
deref t none = none
deref t (some p) = get_elem? t.heap p

abbrev pub found : Option Instance → Result Error Instance
found none = err instance_not_found
found (some x) = ok x

unfoldable pub get_by_id : String → Instances → Result Error Instance
get_by_id i t = found (deref t (lookup i t.instances))

unfoldable pub get_by_instance_key : String → Instances → Result Error Instance
get_by_instance_key k t = found (deref t (lookup k t.by_key))

-- The records of the map `instances`, in the order of the `range` loop.
abbrev pub values : Instances → Map ℕ → List Instance
values t [] = []
values t ((k, p) ∷ m) = elim (get_elem? t.heap p) [ none ↦ values t m | some x ↦ x ∷ values t m ]

unfoldable pub list_all : Instances → List Instance
list_all t = values t t.instances

unfoldable pub list_by_deployment : String → Instances → List Instance
unfolding list_all
list_by_deployment deployment_id t = filter (λ x. str_eq x.deployment_id deployment_id) (list_all t)

unfoldable pub list_by_worker : String → Instances → List Instance
unfolding list_all
list_by_worker worker_id t = filter (λ x. str_eq x.worker_id worker_id) (list_all t)

abbrev pub update_at :
    ℤ → Instance → Instances → Option ℕ → Option Instance → Result Error (Instance × Instances)
update_at now x t (some p) (some existing) =
    let stamped = record x { updated_at = some now } in
    ok (
      stamped,
      record {
        heap = set t.heap p stamped;
        instances = t.instances;
        by_key = if str_eq x.instance_key "" then t.by_key else insert x.instance_key p t.by_key;
      },
    )
update_at now x t _ _ = err instance_not_found

-- Update overwrites the shared record and enters it under the new key; an old key keeps pointing
-- at it.
unfoldable pub update : ℤ → Instance → Instances → Result Error (Instance × Instances)
update now x t = let p = lookup x.id t.instances in update_at now x t p (deref t p)

abbrev count_of : Option ℤ → ℤ
count_of none = pos 0
count_of (some n) = n

-- counts[inst.WorkerID]++ over the instances of the deployment that have a worker.
unfoldable pub count_by_worker : String → List Instance → Map ℤ → Map ℤ
count_by_worker deployment_id [] counts = counts
count_by_worker deployment_id (x ∷ xs) counts = count_by_worker deployment_id xs (
    if str_eq x.deployment_id deployment_id && not (str_eq x.worker_id "")
    then insert x.worker_id (int_add (count_of (lookup x.worker_id counts)) (pos 1)) counts
    else counts)

unfoldable pub count_by_worker_for_deployment : String → Instances → Map ℤ
unfolding list_all count_by_worker
count_by_worker_for_deployment deployment_id t = count_by_worker deployment_id (list_all t) []

unfoldable pub wipe : Instances → Instances
wipe t = no_instances
