-- ===== src/Election/System.antt =====
-- internal/ha/election.go: the instances of the control plane that campaign for one lock,
-- interleaved in any order. A tick of a campaign loop, with its call of the lock, is one step; a
-- loop may still take a tick that was due when its elector stopped.
use almichot_cloud.Prelude.{ℤ, String, ℕ, Bool, ◌≤ℤ◌, if◌then◌else◌, eqb}
use almichot_cloud.Election.{
  AdvisoryLock, new_advisory_lock, partition, ElectorConfig, Elector, new_elector, tick, stop,
  step_down, record_decision,
}

abbrev pub update {ℓ} : {A : Type ℓ} → (ℕ → A) → ℕ → A → ℕ → A
update f i v j = if eqb i j then v else f j

-- One lock, the electors, and the time on the clock that they share.
pub record Cluster : Type 0 where
  pub lock : AdvisoryLock
  pub electors : ℕ → Elector
  pub now : ℤ

abbrev pub replace : ℕ → Elector × AdvisoryLock → Cluster → Cluster
replace i (e, m) s = record s { electors = update s.electors i e; lock = m }

pub data Step (s : Cluster) : Cluster → Type 0 where
  wait : (later : ℤ) → s.now ≤ℤ later → Step s (record s { now = later })
  campaign : (i : ℕ) → Step s (replace i (tick s.now (s.electors i) s.lock) s)
  halt : (i : ℕ) → Step s (replace i (stop (s.electors i) s.lock) s)
  resign : (i : ℕ) → Step s (replace i (step_down (s.electors i), s.lock) s)
  decide : (i : ℕ) → Step s (replace i ((record_decision s.now (s.electors i)).1, s.lock) s)
  cut : (owner : String) (b : Bool) → Step s (record s { lock = partition owner b s.lock })

-- Elector `i` is created from `cfgs i`.
abbrev pub initial : (ℕ → ElectorConfig) → ℤ → ℤ → Cluster
initial cfgs ttl start = record {
  lock = new_advisory_lock ttl;
  electors = λ i. new_elector (cfgs i);
  now = start;
}

pub data Reach (s : Cluster) : Cluster → Type 0 where
  begin : Reach s s
  next : {t u : Cluster} → Reach s t → Step t u → Reach s u
