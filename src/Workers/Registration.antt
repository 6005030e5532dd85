-- ===== src/Workers/Registration.antt =====
-- internal/workers/registry.go, Register: a worker joins the cluster, or joins it again.
use almichot_cloud.Prelude.{
  ℤ, pos, ℕ, String, true, false, not, ◌&&◌, Option, none, some, [], Map, lookup, str_eq,
  if◌then◌else◌, Result, ok, err,
}
use almichot_cloud.Workers.Model.{Worker, ready, healthy, capability_build, capability_runtime}
use almichot_cloud.Workers.Repository.{
  Error, worker_key_required, invalid_capability, deref, store, link, enter, upsert,
}
use almichot_cloud.Workers.Registry.{Registry}

pub record RegisterParams : Type 0 where
  pub worker_key : String
  pub hostname : String
  pub ip_address : String
  pub grpc_port : ℤ
  pub capacity : ℤ
  pub labels : Map String

-- The label that Register refuses, if it is set, not empty and neither of the two it knows.
abbrev pub bad_capability : Option String → Option String
bad_capability none = none
bad_capability (some c) =
    if not (str_eq c "") && not (str_eq c capability_build) && not (str_eq c capability_runtime)
    then some c
    else none

-- The worker that a new registration starts from.
abbrev pub fresh_worker : String → ℤ → RegisterParams → Worker
fresh_worker new_id now p = record {
  id = new_id;
  worker_key = p.worker_key;
  hostname = "";
  ip_address = "";
  grpc_port = pos 0;
  capacity = pos 0;
  labels = [];
  state = ready;
  health = healthy;
  schedulable = true;
  active_workloads = pos 0;
  last_beat_at = none;
  consecutive_beats = pos 0;
  consecutive_misses = pos 0;
  is_partitioned = false;
  created_at = some now;
  updated_at = none;
}

-- The fields that every registration sets.
unfoldable pub registered : ℤ → RegisterParams → Worker → Worker
registered now p w = record w {
  hostname = p.hostname;
  ip_address = p.ip_address;
  grpc_port = p.grpc_port;
  capacity = p.capacity;
  labels = p.labels;
  state = ready;
  health = healthy;
  schedulable = true;
  last_beat_at = some now;
  updated_at = some now;
}

-- Save a worker in the repository, then enter it in the cache: through the pointer of a known key,
-- with a new record otherwise.
abbrev pub save : ℤ → Option ℕ → Worker → Registry → Worker × Registry
save stored_at known w r =
    let (w', repo') = upsert stored_at w r.repo in
    elim known [
      | none ↦ (w', record r { cache = enter w' r.cache; repo = repo' })
      | some p ↦ (w', record r { cache = link p w' (store r.cache p w'); repo = repo' })
    ]

abbrev pub register_at :
    String → ℤ → ℤ → RegisterParams → Registry → Option ℕ → Option Worker → Worker × Registry
register_at new_id now stored_at p r (some q) (some w) =
    save stored_at (some q) (registered now p w) r
register_at new_id now stored_at p r _ _ =
    save stored_at none (registered now p (fresh_worker new_id now p)) r

-- `new_id` is the UUID that the source draws, `now` and `stored_at` its readings of the clock.
unfoldable pub register :
    String → ℤ → ℤ → RegisterParams → Registry → Result Error (Worker × Registry)
unfolding registered upsert enter
register new_id now stored_at p r =
    if str_eq p.worker_key ""
    then err worker_key_required
    else elim (bad_capability (lookup "capability" p.labels)) [
      | some c ↦ err (invalid_capability c)
      | none ↦
          let q = lookup p.worker_key r.cache.workers in
          ok (register_at new_id now stored_at p r q (deref r.cache q))
    ]
