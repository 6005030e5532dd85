-- ===== src/Balancer.antt =====
-- internal/loadbalancer/router.go: the routing table, its changes, and the choice of a backend.
-- `url.Parse` of the standard library is the argument `parse`, which gives none on an error.
pub mod Targets
pub mod Rotation
use Prim.Native.String.{◌++◌ as concat}
use mathlib.Core.Option
use text.Mathlib.Text.{starts_with}
use almichot_cloud.Prelude.{
  ℕ, ◌+◌, ◌%◌, String, Bool, not, ◌||◌, if◌then◌else◌, Option, none, some, List, [], ◌∷◌, ◌++◌, Map,
  lookup, insert, filter, any, length, get_elem?, str_eq, Result, ok, err, word,
}

-- A backend; the reverse proxy of the source is determined by the URL.
pub record Target : Type 0 where
  pub instance_id : String
  pub url : String

pub record Router : Type 0 where
  pub targets : Map (List Target)
  pub counter : ℕ

-- NewRouter
abbrev pub new_router : Router
new_router = record { targets = []; counter = 0 }

abbrev pub or_no_targets : Option (List Target) → List Target
or_no_targets none = []
or_no_targets (some ts) = ts

abbrev pub targets_of : String → Router → List Target
targets_of project r = or_no_targets (lookup project r.targets)

abbrev pub other_than : String → Target → Bool
other_than instance_id t = not (str_eq t.instance_id instance_id)

-- RegisterTarget from the parsed URL on: an earlier target of the instance is replaced.
unfoldable pub add_target : String → String → String → Router → Router
add_target project instance_id url r = record r {
  targets =
      insert project
        (filter (other_than instance_id) (targets_of project r)
          ++ record { instance_id = instance_id; url = url } ∷ [])
        r.targets;
}

-- RegisterTarget; `parse` is the standard library's `url.Parse`.
abbrev pub with_scheme : String → String
with_scheme raw =
    if starts_with raw "http://" || starts_with raw "https://" then raw else concat "http://" raw

unfoldable pub register_target :
    (String → Option String) → String → String → String → Router → Option Router
register_target parse project instance_id raw r =
    Option.map (λ url. add_target project instance_id url r) (parse (with_scheme raw))

unfoldable pub unregister_target : String → String → Router → Router
unregister_target project instance_id r = record r {
  targets = insert project (filter (other_than instance_id) (targets_of project r)) r.targets;
}

-- The number of the backend that the next request goes to. The counter is a uint64.
abbrev pub next_counter : Router → ℕ
next_counter r = (r.counter + 1) % word

pub data RouteError : Type 0 where
  missing_project no_active_instances index_panic : RouteError

abbrev chosen_target : Option Target → Result RouteError Target
chosen_target none = err index_panic
chosen_target (some t) = ok t

abbrev pick : List Target → ℕ → Result RouteError Target
pick [] n = err no_active_instances
pick (t ∷ ts) n = chosen_target (get_elem? (t ∷ ts) (n % length (t ∷ ts)))

-- The counter moves only where there is a target to choose.
abbrev pub counted : List Target → Router → Router
counted [] r = r
counted (t ∷ ts) r = record r { counter = next_counter r }

-- ServeHTTP from the project on: the backend that the request is passed to.
unfoldable pub route : String → Router → Result RouteError Target × Router
route project r =
    let ts = targets_of project r in
    elim (str_eq project "") [
      | Bool.true ↦ (err missing_project, r)
      | Bool.false ↦ (pick ts (next_counter r), counted ts r)
    ]
