-- ===== src/Workers/Repository.antt =====
-- internal/workers/repository.go: MemoryWorkerRepository, the registry's default store.
-- Two maps point at shared records, so a table keeps the records in `heap` and the maps hold
-- positions in it. Times that the source reads from the clock are arguments.
pub mod Tables
use almichot_cloud.Prelude.{
  ℤ, pos, ℕ, String, Bool, true, false, Option, none, some, List, [], ◌∷◌, ◌++◌, Map, lookup,
  insert, str_eq, if◌then◌else◌, get_elem?, set, length, Result, ok, err, int_add, ltb_ℤ,
}
use almichot_cloud.Workers.Model.{Worker, WorkerState, ready, draining}

pub data Error : Type 0 where
  worker_not_found : Error
  worker_key_required : Error
  invalid_capability : String → Error

pub record Table : Type 0 where
  pub heap : List Worker
  pub workers : Map ℕ
  pub by_id : Map ℕ

abbrev pub empty_table : Table
empty_table = record { heap = []; workers = []; by_id = [] }

-- The record behind a pointer.
abbrev pub deref : Table → Option ℕ → Option Worker
deref t none = none
deref t (some p) = get_elem? t.heap p

-- Write a record through a pointer.
abbrev pub store : Table → ℕ → Worker → Table
store t p w = record t { heap = set t.heap p w }

-- Enter a pointer in both maps, in `by_id` only under an ID that is not empty.
unfoldable pub link : ℕ → Worker → Table → Table
link p w t = record t {
  workers = insert w.worker_key p t.workers;
  by_id = if str_eq w.id "" then t.by_id else insert w.id p t.by_id;
}

-- Allocate a record and enter it in both maps.
unfoldable pub enter : Worker → Table → Table
unfolding link
enter w t = link (length t.heap) w (record t { heap = t.heap ++ w ∷ [] })

abbrev or_now : ℤ → Option ℤ → Option ℤ
or_now now none = some now
or_now now (some t) = some t

-- Upsert writes the time stamps of the caller's worker too: the worker comes back beside the table.
unfoldable pub upsert : ℤ → Worker → Table → Worker × Table
unfolding enter
upsert now w t =
    let stamped = record w { created_at = or_now now w.created_at; updated_at = some now } in
    (stamped, enter stamped t)

abbrev found : Option Worker → Result Error Worker
found none = err worker_not_found
found (some w) = ok w

unfoldable pub get_by_id : String → Table → Result Error Worker
get_by_id i t = found (deref t (lookup i t.by_id))

unfoldable pub get_by_worker_key : String → Table → Result Error Worker
get_by_worker_key k t = found (deref t (lookup k t.workers))

-- The values of the map, in the order of the `range` loop.
abbrev pub values : Table → Map ℕ → List Worker
values t [] = []
values t ((k, p) ∷ m) = elim (get_elem? t.heap p) [ none ↦ values t m | some w ↦ w ∷ values t m ]

unfoldable pub list : Table → List Worker
list t = values t t.workers

-- A change of the worker under a key, through the pointer that `workers` holds.
abbrev at_pointer : (Worker → Worker) → Table → Option ℕ → Option Worker → Result Error Table
at_pointer f t (some p) (some w) = ok (store t p (f w))
at_pointer f t _ _ = err worker_not_found

abbrev at_key : (Worker → Worker) → String → Table → Result Error Table
at_key f k t = let p = lookup k t.workers in at_pointer f t p (deref t p)

unfoldable pub update_heartbeat : ℤ → String → ℤ → Table → Result Error Table
update_heartbeat now k beat_at =
    at_key (λ w. record w { last_beat_at = some beat_at; updated_at = some now }) k

unfoldable pub set_drain : ℤ → String → Bool → Table → Result Error Table
set_drain now k drain =
    at_key
      (λ w.
        if drain
        then record w { state = draining; schedulable = false; updated_at = some now }
        else record w { state = ready; schedulable = true; updated_at = some now })
      k

-- The count after a change by `delta`, which never goes below 0.
unfoldable pub adjust : ℤ → ℤ → ℤ
adjust active delta = let sum = int_add active delta in if ltb_ℤ sum (pos 0) then pos 0 else sum

unfoldable pub update_active_workloads : ℤ → String → ℤ → Table → Result Error Table
unfolding adjust
update_active_workloads now k delta =
    at_key
      (λ w. record w { active_workloads = adjust w.active_workloads delta; updated_at = some now })
      k
