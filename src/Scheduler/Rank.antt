-- ===== src/Scheduler/Rank.antt =====
-- internal/scheduler/rank.go and policy.go: the order of preference among feasible workers.
-- Floats are a parameter: the comparison of utilizations uses their operations only. A stable sort
-- of the standard library is the insertion sort that Go runs on up to 20 elements.
pub mod First
use Prim.Native.Nat.{Ordering}
use Prim.Native.String.{compare}
use almichot_cloud.Prelude.{
  ℤ, pos, String, Bool, true, false, not, ◌&&◌, ◌||◌, Option, none, some, List, [], ◌∷◌, Map,
  lookup, str_eq, if◌then◌else◌, leb_ℤ, ltb_ℤ, eqb_ℤ,
}
use almichot_cloud.Workers.Model.{Worker}

pub data SchedulingPolicy : Type 0 where
  spreading bin_packing : SchedulingPolicy

-- float64 with the operations that a comparison of utilizations uses.
pub record Floats : Type 1 where
  pub F : Type 0
  pub of_int : ℤ → F
  pub div : F → F → F
  pub sub : F → F → F
  pub abs : F → F
  pub lt : F → F → Bool
  pub one : F
  pub epsilon : F

module _ {ℓ} {A : Type ℓ} where
  abbrev pub all : (A → Bool) → List A → Bool
  all p [] = true
  all p (x ∷ xs) = p x && all p xs

  -- Insertion from the right: `x` passes the elements from the last one on for which `less x`
  -- holds, so it stops behind the last element for which it does not.
  unfoldable pub sink : (A → A → Bool) → A → List A → List A
  sink less x [] = x ∷ []
  sink less x (y ∷ ys) =
      let rest = sink less x ys in if all (less x) (y ∷ ys) then x ∷ y ∷ ys else y ∷ rest

  unfoldable pub sort_into : (A → A → Bool) → List A → List A → List A
  sort_into less [] out = out
  sort_into less (x ∷ xs) out = sort_into less xs (sink less x out)

  -- sort.SliceStable
  unfoldable pub sort_stable : (A → A → Bool) → List A → List A
  unfolding sort_into sink
  sort_stable less xs = sort_into less xs []

-- Go's `<` on strings.
abbrev pub str_ltb : String → String → Bool
str_ltb s t = elim (compare s t) [ Ordering.lt ↦ true | _ ↦ false ]

-- Reading a missing key of a map of counts gives 0.
abbrev pub or_zero : Option ℤ → ℤ
or_zero none = pos 0
or_zero (some n) = n

-- The number of instances of the deployment on a worker, by its ID or else by its key.
unfoldable pub instance_count : Map ℤ → Worker → ℤ
instance_count counts w =
    let by_id = or_zero (lookup w.id counts) in
    if eqb_ℤ by_id (pos 0) then or_zero (lookup w.worker_key counts) else by_id

module _ (f : Floats) where
  open f use {F, of_int, div, sub, abs, lt, one, epsilon}

  -- internal/workers/model.go, Utilization
  unfoldable pub utilization : Worker → F
  utilization w =
      if leb_ℤ w.capacity (pos 0) then one else div (of_int w.active_workloads) (of_int w.capacity)

  -- The comparison that the ranking sorts by.
  unfoldable pub preferred : Map ℤ → Worker → Worker → Bool
  unfolding utilization
  preferred counts a b =
      if not (eqb_ℤ (instance_count counts a) (instance_count counts b))
      then ltb_ℤ (instance_count counts a) (instance_count counts b)
      else if lt epsilon (abs (sub (utilization a) (utilization b)))
      then lt (utilization a) (utilization b)
      else if not (eqb_ℤ a.active_workloads b.active_workloads)
      then ltb_ℤ a.active_workloads b.active_workloads
      else str_ltb a.worker_key b.worker_key

  -- Rank; a nil map of counts is the empty one.
  unfoldable pub rank : List Worker → Map ℤ → List Worker
  unfolding sort_stable preferred
  rank [] counts = []
  rank (w ∷ []) counts = w ∷ []
  rank (v ∷ w ∷ ws) counts = sort_stable (preferred counts) (v ∷ w ∷ ws)
