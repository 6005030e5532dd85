-- ===== src/Election/Exclusion.antt =====
-- internal/ha/election.go: leadership is exclusive for as long as the leases last.
use almichot_cloud.Prelude.{
  ℤ, String, ℕ, ◌≡◌, ◌≢◌, sym, ◌∙◌, true, ◌≤ℤ◌, eqb, arith, inl, inr, time_sub, Bool-cases,
}
use mathlib.Core.Path.{subst}
use almichot_cloud.Election.{
  AdvisoryLock, partition, ElectorConfig, Elector, tick, stop, step_down, record_decision,
  is_leader,
}
use almichot_cloud.Election.System.{
  Cluster, Step, wait, campaign, halt, resign, decide, cut, initial, Reach, begin, next, update,
  replace,
}
use almichot_cloud.Election.Claim.{
  Covers, IsCovered, wait-IsCovered, tick-IsCovered, tick-Covers, stop-IsCovered, stop-Covers,
}

step_down-IsCovered :
    (now : ℤ) (m : AdvisoryLock) (e : Elector) → IsCovered now m e → IsCovered now m (step_down e)
unfolding step_down
step_down-IsCovered now m e c = elim (Bool-cases (is_leader e.state)) [
  | inl b ↦ λ l. absurd (ground arith)
  | inr b ↦ rw b c
]

record_decision-IsCovered :
    (now : ℤ) (m : AdvisoryLock) (e : Elector)
    → IsCovered now m e
    → IsCovered now m (record_decision now e).1
unfolding record_decision
record_decision-IsCovered now m e c = elim (Bool-cases (is_leader e.state)) [
  | inl b ↦ rw b c
  | inr b ↦ rw b c
]

tick-owner :
    (now : ℤ) (m : AdvisoryLock) (e : Elector) → (tick now e m).0.cfg.owner_id ≡ e.cfg.owner_id
unfolding tick step_down
tick-owner now m e = ground arith

stop-owner : (m : AdvisoryLock) (e : Elector) → (stop e m).0.cfg.owner_id ≡ e.cfg.owner_id
unfolding stop step_down
stop-owner m e = ground arith

step_down-owner : (e : Elector) → (step_down e).cfg.owner_id ≡ e.cfg.owner_id
unfolding step_down
step_down-owner e = ground arith

record_decision-owner :
    (now : ℤ) (e : Elector) → (record_decision now e).1.cfg.owner_id ≡ e.cfg.owner_id
unfolding record_decision
record_decision-owner now e = ground arith

-- The elector at an index, after one of them was replaced.
update-cases :
    (P : ℕ → Elector → Type 0) (f : ℕ → Elector) (i : ℕ) (v : Elector)
    → P i v
    → ((j : ℕ) → i ≢ j → P j (f j))
    → (j : ℕ) → P j (update f i v j)
update-cases P f i v h k j = elim (Bool-cases (eqb i j)) [
  | inl e ↦ rw e (subst (λ (x : ℕ). P x v) (let same : i ≡ j = ground arith in same) h)
  | inr e ↦ rw e (k j (ground arith))
]

-- The elector with the name `n`, whose leadership is covered by the lock or has run out.
abbrev IsKnown : ℤ → AdvisoryLock → String → Elector → Type 0
IsKnown now m n e = (e.cfg.owner_id ≡ n) × IsCovered now m e

abbrev AllKnown : (ℕ → String) → Cluster → Type 0
AllKnown names s = (i : ℕ) → IsKnown s.now s.lock (names i) (s.electors i)

module _ (names : ℕ → String) (named : (i : ℕ) → names i ≢ "")
    (distinct : (i j : ℕ) → names i ≡ names j → i ≡ j) where
  -- One elector moves, and the lock with it: its own claim and the others' stay covered.
  replace-AllKnown :
      (s : Cluster) (i : ℕ) (p : Elector × AdvisoryLock)
      → AllKnown names s
      → IsKnown s.now p.1 (names i) p.0
      → ((other : String) (t : ℤ)
          → (s.electors i).cfg.owner_id ≢ other
          → other ≢ ""
          → Covers s.now s.lock other t
          → Covers s.now p.1 other t)
      → AllKnown names (replace i p s)
  replace-AllKnown s i p all own others =
      update-cases (λ j f. IsKnown s.now p.1 (names j) f) s.electors i p.0 own
        λ j ne.
          let name = (all j).0 in
          (
            name,
            λ l.
                others (s.electors j).cfg.owner_id (s.electors j).renewed_at
                  (λ same. ne (distinct i j (sym (all i).0 ∙ same ∙ name)))
                  (λ free. named j (sym name ∙ free)) ((all j).1 l),
          )

  Step-AllKnown : {s t : Cluster} → Step s t → AllKnown names s → AllKnown names t
  Step-AllKnown {s} (wait later h) all =
      λ i. ((all i).0, wait-IsCovered s.now later s.lock (s.electors i) h (all i).1)
  Step-AllKnown {s} (campaign i) all =
      replace-AllKnown s i (tick s.now (s.electors i) s.lock) all
        (
          tick-owner s.now s.lock (s.electors i) ∙ (all i).0,
          tick-IsCovered s.now s.lock (s.electors i),
        )
        (λ other t ne n c. tick-Covers s.now other t s.lock (s.electors i) ne n c)
  Step-AllKnown {s} (halt i) all =
      replace-AllKnown s i (stop (s.electors i) s.lock) all
        (
          stop-owner s.lock (s.electors i) ∙ (all i).0,
          stop-IsCovered s.now s.lock (s.electors i) (all i).1,
        )
        (λ other t ne n c. stop-Covers s.now other t s.lock (s.electors i) ne c)
  Step-AllKnown {s} (resign i) all =
      replace-AllKnown s i (step_down (s.electors i), s.lock) all
        (
          step_down-owner (s.electors i) ∙ (all i).0,
          step_down-IsCovered s.now s.lock (s.electors i) (all i).1,
        )
        (λ other t ne n c. c)
  Step-AllKnown {s} (decide i) all =
      replace-AllKnown s i ((record_decision s.now (s.electors i)).1, s.lock) all
        (
          record_decision-owner s.now (s.electors i) ∙ (all i).0,
          record_decision-IsCovered s.now s.lock (s.electors i) (all i).1,
        )
        (λ other t ne n c. c)
  Step-AllKnown {s} (cut owner b) all = unfold partition in all

initial-AllKnown :
    (cfgs : ℕ → ElectorConfig) (ttl start : ℤ)
    → AllKnown (λ i. (cfgs i).owner_id) (initial cfgs ttl start)
initial-AllKnown cfgs ttl start i = (ground arith, λ l. absurd (ground arith))

Reach-AllKnown :
    (cfgs : ℕ → ElectorConfig) (ttl start : ℤ) {s : Cluster}
    → ((k : ℕ) → (cfgs k).owner_id ≢ "")
    → ((k l : ℕ) → (cfgs k).owner_id ≡ (cfgs l).owner_id → k ≡ l)
    → Reach (initial cfgs ttl start) s
    → AllKnown (λ k. (cfgs k).owner_id) s
Reach-AllKnown cfgs ttl start named distinct begin = initial-AllKnown cfgs ttl start
Reach-AllKnown cfgs ttl start named distinct (next r st) =
    Step-AllKnown (λ k. (cfgs k).owner_id) named distinct st
      (Reach-AllKnown cfgs ttl start named distinct r)

-- Whatever ticks, stops, resignations, decisions and partitions have happened, in any order, since
-- the electors were created under distinct names that are not empty: of two leaders whose last
-- renewals are both no longer ago than the lease lasts, both are the same elector.
pub leader_unique :
    (cfgs : ℕ → ElectorConfig) (ttl start : ℤ) {s : Cluster} (i j : ℕ)
    → ((k : ℕ) → (cfgs k).owner_id ≢ "")
    → ((k l : ℕ) → (cfgs k).owner_id ≡ (cfgs l).owner_id → k ≡ l)
    → Reach (initial cfgs ttl start) s
    → is_leader (s.electors i).state ≡ true
    → is_leader (s.electors j).state ≡ true
    → time_sub s.now (s.electors i).renewed_at ≤ℤ s.lock.lease_ttl
    → time_sub s.now (s.electors j).renewed_at ≤ℤ s.lock.lease_ttl
    → i ≡ j
leader_unique cfgs ttl start {s} i j named distinct r li lj fi fj =
    let names : ℕ → String = λ k. (cfgs k).owner_id in
    let all = Reach-AllKnown cfgs ttl start named distinct r in
    elim ((all i).1 li) [
      | inr old ↦ absurd (omega arith)
      | inl (own, _) ↦ elim ((all j).1 lj) [
        | inr old ↦ absurd (omega arith)
        | inl (own', _) ↦ distinct i j (sym (all i).0 ∙ sym own ∙ own' ∙ (all j).0)
      ]
    ]
