-- ===== src/Reconcile/Diff/Pairs.antt =====
-- internal/reconcile/diff.go, ComputeDiff: what a matching pair promises.
use mathlib.Core.Path.{subst}
use almichot_cloud.Prelude.{
  ℕ, suc, ◌+◌, ◌≡◌, refl, ◌⊎◌, inl, inr, String, Bool, true, false, Option, none, some, List, [],
  ◌∷◌, Map, lookup, lookup-insert_cases, str_eq, get_elem?, arith, In, here, there, In-append_cases,
  Bool-cases,
}
use almichot_cloud.Reconcile.Diff.{
  DesiredInstance, ObservedContainer, MatchingPair, Progress, is_running_state, index_desired,
  enter_index, instance_key_of, claim, at_index, visit, visit_all, compute_diff,
}

-- The index names only instances that exist and go by the key.
Names : DesiredInstance → String → Type 0
Names d k = (k ≡ d.instance_key) ⊎ (k ≡ d.instance_id)

IsIndex : List DesiredInstance → Map ℕ → Type 0
IsIndex desired m =
    (k : String) (i : ℕ)
    → lookup k m ≡ some i
    → (d : DesiredInstance) × (get_elem? desired i ≡ some d) × Names d k

enter_index-IsIndex :
    (desired : List DesiredInstance) (j : String) (n : ℕ) (d : DesiredInstance) (m : Map ℕ)
    → get_elem? desired n ≡ some d
    → Names d j
    → IsIndex desired m
    → IsIndex desired (enter_index j n m)
unfolding IsIndex
enter_index-IsIndex desired j n d m at names h k i e = elim (Bool-cases (str_eq j "")) [
  | inl b ↦ h k i (rw b at e)
  | inr b ↦ found (lookup-insert_cases j k n i m (rw b at e))
]
  where
    found :
        ((j ≡ k) × (n ≡ i)) ⊎ (lookup k m ≡ some i)
        → (d : DesiredInstance) × (get_elem? desired i ≡ some d) × Names d k
    found (inl (e₁, e₂)) = (d, rw e₂ at at, rw e₁ at names)
    found (inr f) = h k i f

index_desired-IsIndex :
    (desired ds : List DesiredInstance) (n : ℕ) (m : Map ℕ)
    → ((i : ℕ) (d : DesiredInstance) → get_elem? ds i ≡ some d → get_elem? desired (i + n) ≡ some d)
    → IsIndex desired m
    → IsIndex desired (index_desired ds n m)
unfolding index_desired Names
index_desired-IsIndex desired [] n m at h = h
index_desired-IsIndex desired (d ∷ ds) n m at h = index_desired-IsIndex desired ds (suc n) _ later (
    enter_index-IsIndex desired d.instance_id n d _ now (inr refl)
      (enter_index-IsIndex desired d.instance_key n d m now (inl refl) h))
  where
    now : get_elem? desired n ≡ some d
    now = subst (λ (j : ℕ). get_elem? desired j ≡ some d) (omega arith) (at 0 d refl)

    later :
        (i : ℕ) (x : DesiredInstance)
        → get_elem? ds i ≡ some x
        → get_elem? desired (i + suc n) ≡ some x
    later i x e = let e' : i + suc n ≡ suc i + n = omega arith in rw e' (at (suc i) x e)

-- A pair that is right: an instance of the request, and a running container that goes by its name.
pub record IsMatch (desired : List DesiredInstance) (x : MatchingPair) : Type 0 where
  pub wanted : (i : ℕ) × (get_elem? desired i ≡ some x.desired)
  pub runs : is_running_state x.observed.state ≡ true
  pub named :
      (instance_key_of x.observed ≡ x.desired.instance_key)
      ⊎ (instance_key_of x.observed ≡ x.desired.instance_id)

Right : List DesiredInstance → Progress → Type 0
Right desired p = (x : MatchingPair) → In x p.matching → IsMatch desired x

pair-Right :
    (desired : List DesiredInstance) (c : ObservedContainer) (i : ℕ) (d : DesiredInstance)
    → (p : Progress) → (x : MatchingPair) → get_elem? desired i ≡ some d
    → Names d (instance_key_of c)
    → Right desired p
    → is_running_state c.state ≡ true
    → In x p.matching ⊎ In x (record { desired = d; observed = c } ∷ [])
    → IsMatch desired x
unfolding Right Names
pair-Right desired c i d p x at names h r (inl w) = h x w
pair-Right desired c i d p x at names h r (inr (here e)) =
    rw e (record { wanted = (i, at); runs = r; named = names })
pair-Right desired c i d p x at names h r (inr (there w)) = elim w [ ]

claim-Right :
    (desired : List DesiredInstance) (c : ObservedContainer) (i : ℕ) (d : DesiredInstance)
    → (b : Option Bool) → (p : Progress) → get_elem? desired i ≡ some d
    → Names d (instance_key_of c)
    → Right desired p
    → Right desired (claim c i (some d) b p)
unfolding Right
claim-Right desired c i d none p at names h x v = h x v
claim-Right desired c i d (some true) p at names h x v = h x v
claim-Right desired c i d (some false) p at names h x v =
    elim (Bool-cases (is_running_state c.state)) [
      | inl r ↦ pair-Right desired c i d p x at names h r (In-append_cases p.matching _ (rw r at v))
      | inr r ↦ h x (rw r at v)
    ]

at_index-Right :
    (desired : List DesiredInstance) (m : Map ℕ) (c : ObservedContainer) (o : Option ℕ)
    → (p : Progress) → lookup (instance_key_of c) m ≡ o
    → IsIndex desired m
    → Right desired p
    → Right desired (at_index desired c o p)
unfolding IsIndex Right
at_index-Right desired m c none p e ix h = h
at_index-Right desired m c (some i) p e ix h =
    let (d, at, names) = ix (instance_key_of c) i e in
    rw at (claim-Right desired c i d (get_elem? p.matched i) p at names h)

visit-Right :
    (desired : List DesiredInstance) (m : Map ℕ) (c : ObservedContainer) (p : Progress)
    → IsIndex desired m
    → Right desired p
    → Right desired (visit desired m c p)
unfolding visit Right
visit-Right desired m c p ix h = elim (Bool-cases (str_eq (instance_key_of c) "")) [
  | inl b ↦ rw b h
  | inr b ↦ rw b (at_index-Right desired m c (lookup (instance_key_of c) m) p refl ix h)
]

visit_all-Right :
    (desired : List DesiredInstance) (m : Map ℕ) (cs : List ObservedContainer) (p : Progress)
    → IsIndex desired m
    → Right desired p
    → Right desired (visit_all desired m cs p)
unfolding visit_all
visit_all-Right desired m [] p ix h = h
visit_all-Right desired m (c ∷ cs) p ix h =
    visit_all-Right desired m cs (visit desired m c p) ix (visit-Right desired m c p ix h)

-- Every pair that ComputeDiff reports as matching joins an instance of the request with a container
-- that runs and carries the instance's key or ID.
pub compute_diff-IsMatch :
    (desired : List DesiredInstance) (observed : List ObservedContainer) (x : MatchingPair)
    → In x (compute_diff desired observed).matching
    → IsMatch desired x
unfolding compute_diff Right IsIndex lookup
compute_diff-IsMatch desired observed x v =
    visit_all-Right desired (index_desired desired 0 []) observed _
      (index_desired-IsIndex desired desired 0 []
        (λ i d e. subst (λ (n : ℕ). get_elem? desired n ≡ some d) (omega arith) e)
        (λ k i e. absurd (ground arith)))
      (λ y w. elim w [ ]) x v
