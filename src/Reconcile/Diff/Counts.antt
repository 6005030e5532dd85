-- ===== src/Reconcile/Diff/Counts.antt =====
-- internal/reconcile/diff.go, ComputeDiff: nothing is lost or counted twice.
use almichot_cloud.Prelude.{
  ℕ, zero, suc, ◌+◌, ◌≡◌, ap, sym, ◌∙◌, refl, Bool, true, false, Option, none, some, List, [], ◌∷◌,
  ◌++◌, Map, get_elem?, set, length, length-append, length-set, arith, Bool-cases, inl, inr,
}
use almichot_cloud.Reconcile.Diff.{
  DesiredInstance, ObservedContainer, MatchingPair, Progress, is_running_state, index_desired,
  instance_key_of, claim, at_index, index_of, visit, visit_all, unmatched, no_matches, compute_diff,
}

abbrev count_true : List Bool → ℕ
count_true [] = 0
count_true (true ∷ bs) = suc (count_true bs)
count_true (false ∷ bs) = count_true bs

count_true-set :
    (bs : List Bool) (i : ℕ)
    → get_elem? bs i ≡ some false
    → count_true (set bs i true) ≡ suc (count_true bs)
count_true-set [] i h = cc
count_true-set (b ∷ bs) zero h = ground arith
count_true-set (true ∷ bs) (suc i) h = ap suc (count_true-set bs i h)
count_true-set (false ∷ bs) (suc i) h = count_true-set bs i h

-- The loop's account: one flag for each desired instance, and as many pairs as flags that are set.
record IsTallied (desired : List DesiredInstance) (p : Progress) : Type 0 where
  flags : length p.matched ≡ length desired
  pairs : length p.matching ≡ count_true p.matched

-- A container goes to exactly one of the two lists.
Sorted : Progress → Progress → Type 0
Sorted p q = length q.matching + length q.extra ≡ suc (length p.matching + length p.extra)

extra-IsTallied :
    (desired : List DesiredInstance) (c : ObservedContainer) (p : Progress)
    → IsTallied desired p
    → IsTallied desired (record p { extra = p.extra ++ c ∷ [] })
      × Sorted p (record p { extra = p.extra ++ c ∷ [] })
unfolding Sorted
extra-IsTallied desired c p t =
    (record { flags = t.flags; pairs = t.pairs }, omega (arith, length-append p.extra (c ∷ [])))

pair-IsTallied :
    (desired : List DesiredInstance) (i : ℕ) (x : MatchingPair) (p : Progress)
    → get_elem? p.matched i ≡ some false
    → IsTallied desired p
    → let q : Progress = record {
      matching = p.matching ++ x ∷ [];
      extra = p.extra;
      matched = set p.matched i true;
    } in
      IsTallied desired q × Sorted p q
unfolding Sorted
pair-IsTallied desired i x p e t = (
  record {
    flags = length-set p.matched i true ∙ t.flags;
    pairs = omega (arith, length-append p.matching (x ∷ []), count_true-set p.matched i e, t.pairs);
  },
  omega (arith, length-append p.matching (x ∷ [])),
)

claim-IsTallied :
    (desired : List DesiredInstance) (c : ObservedContainer) (i : ℕ) (d : Option DesiredInstance)
    → (b : Option Bool) → (p : Progress) → get_elem? p.matched i ≡ b
    → IsTallied desired p
    → IsTallied desired (claim c i d b p) × Sorted p (claim c i d b p)
claim-IsTallied desired c i none b p e t = extra-IsTallied desired c p t
claim-IsTallied desired c i (some d) none p e t = extra-IsTallied desired c p t
claim-IsTallied desired c i (some d) (some true) p e t = extra-IsTallied desired c p t
claim-IsTallied desired c i (some d) (some false) p e t =
    elim (Bool-cases (is_running_state c.state)) [
      | inl r ↦ rw r (pair-IsTallied desired i (record { desired = d; observed = c }) p e t)
      | inr r ↦ rw r (extra-IsTallied desired c p t)
    ]

at_index-IsTallied :
    (desired : List DesiredInstance) (c : ObservedContainer) (o : Option ℕ) (p : Progress)
    → IsTallied desired p
    → IsTallied desired (at_index desired c o p) × Sorted p (at_index desired c o p)
at_index-IsTallied desired c none p t = extra-IsTallied desired c p t
at_index-IsTallied desired c (some i) p t =
    claim-IsTallied desired c i (get_elem? desired i) (get_elem? p.matched i) p refl t

visit_all-IsTallied :
    (desired : List DesiredInstance) (m : Map ℕ) (cs : List ObservedContainer) (p : Progress)
    → IsTallied desired p
    → IsTallied desired (visit_all desired m cs p)
      × (length (visit_all desired m cs p).matching + length (visit_all desired m cs p).extra
          ≡ length p.matching + length p.extra + length cs)
unfolding visit_all visit Sorted
visit_all-IsTallied desired m [] p t = (t, omega arith)
visit_all-IsTallied desired m (c ∷ cs) p t =
    let o = index_of (instance_key_of c) m in
    let (t', e) = at_index-IsTallied desired c o p t in
    let (t'', e') = visit_all-IsTallied desired m cs (at_index desired c o p) t' in
    (t'', omega arith)

no_matches-IsTallied :
    (ds : List DesiredInstance)
    → (length (no_matches ds) ≡ length ds) × (count_true (no_matches ds) ≡ 0)
no_matches-IsTallied [] = (refl, refl)
no_matches-IsTallied (d ∷ ds) = let (a, b) = no_matches-IsTallied ds in (ap suc a, b)

length-unmatched :
    (ds : List DesiredInstance) (bs : List Bool)
    → length bs ≡ length ds
    → length (unmatched ds bs) + count_true bs ≡ length ds
length-unmatched [] [] h = refl
length-unmatched [] (b ∷ bs) h = absurd (omega arith)
length-unmatched (d ∷ ds) [] h = absurd (omega arith)
length-unmatched (d ∷ ds) (true ∷ bs) h = omega (arith, length-unmatched ds bs (omega arith))
length-unmatched (d ∷ ds) (false ∷ bs) h = omega (arith, length-unmatched ds bs (omega arith))

-- The lengths that ComputeDiff returns add up: `matching` and `extra` to the number of observed
-- containers, `matching` and `missing` to the number of desired instances.
pub compute_diff-counts :
    (desired : List DesiredInstance) (observed : List ObservedContainer)
    → let r = compute_diff desired observed in
      (length r.matching + length r.extra ≡ length observed)
      × (length r.matching + length r.missing ≡ length desired)
unfolding compute_diff
compute_diff-counts desired observed =
    let m = index_desired desired 0 [] in
    let p : Progress = record { matching = []; extra = []; matched = no_matches desired } in
    let (a, b) = no_matches-IsTallied desired in
    let (t, e) = visit_all-IsTallied desired m observed p (record { flags = a; pairs = sym b }) in
    (
      omega (arith, e),
      omega (
        arith,
        t.pairs,
        length-unmatched desired (visit_all desired m observed p).matched t.flags,
      ),
    )
