-- ===== src/Election.antt =====
-- internal/ha/election.go: the advisory lock in memory, and the elector that campaigns for it. The
-- timeouts of the lock's calls have no effect on the lock in memory. The callbacks are other
-- code: an elector keeps the sequence in which it called them.
pub mod Lease
pub mod System
pub mod Claim
pub mod Exclusion
use almichot_cloud.Prelude.{
  ℤ, pos, ◌-◌, String, Bool, true, false, ◌&&◌, ◌||◌, not, Option, none, some, List, [], ◌∷◌, ◌++◌,
  Map, lookup, insert, str_eq, if◌then◌else◌, Result, ok, err, ltb_ℤ, leb_ℤ, eqb_ℤ, time_sub,
  half_word,
}

pub data State : Type 0 where
  standby leader fenced : State

pub data Error : Type 0 where
  not_leader : Error

-- `current_owner = ""` is the free lock.
pub record AdvisoryLock : Type 0 where
  pub current_owner : String
  pub current_lock : ℤ
  pub last_renew : Option ℤ
  pub lease_ttl : ℤ
  pub partitions : Map Bool

abbrev pub new_advisory_lock : ℤ → AdvisoryLock
new_advisory_lock ttl = record {
  current_owner = "";
  current_lock = pos 0;
  last_renew = none;
  lease_ttl = if leb_ℤ ttl (pos 0) then pos 1000000000 else ttl;
  partitions = [];
}

unfoldable pub partition : String → Bool → AdvisoryLock → AdvisoryLock
partition owner partitioned m = record m { partitions = insert owner partitioned m.partitions }

abbrev or_false : Option Bool → Bool
or_false none = false
or_false (some b) = b

abbrev pub is_partitioned : String → AdvisoryLock → Bool
is_partitioned owner m = or_false (lookup owner m.partitions)

-- now.Sub(lastRenew); the distance to the zero time is the longest duration.
abbrev pub since : ℤ → Option ℤ → ℤ
since now none = pos (half_word - 1)
since now (some t) = time_sub now t

abbrev pub partition_error : String
partition_error = "network partition between owner and lock store"

-- The owner that a caller finds: another owner's lease that ran out counts as free.
abbrev pub remaining_owner : ℤ → String → AdvisoryLock → String
remaining_owner now owner m =
    if not (str_eq m.current_owner "")
      && (not (str_eq m.current_owner owner) && ltb_ℤ m.lease_ttl (since now m.last_renew))
    then ""
    else m.current_owner

unfoldable pub try_acquire : ℤ → ℤ → String → AdvisoryLock → Result String Bool × AdvisoryLock
try_acquire now id owner m =
    if is_partitioned owner m
    then (err partition_error, m)
    else if str_eq (remaining_owner now owner m) "" || str_eq (remaining_owner now owner m) owner
    then (ok true, record m { current_owner = owner; current_lock = id; last_renew = some now })
    else (ok false, record m { current_owner = remaining_owner now owner m })

unfoldable pub renew_or_hold : ℤ → ℤ → String → AdvisoryLock → Result String Bool × AdvisoryLock
renew_or_hold now id owner m =
    if is_partitioned owner m
    then (err partition_error, m)
    else if str_eq m.current_owner owner && eqb_ℤ m.current_lock id
    then (ok true, record m { last_renew = some now })
    else (ok false, m)

unfoldable pub release : ℤ → String → AdvisoryLock → AdvisoryLock
release id owner m =
    if str_eq m.current_owner owner && eqb_ℤ m.current_lock id
    then record m { current_owner = ""; current_lock = pos 0 }
    else m

pub record ElectorConfig : Type 0 where
  pub lock_id : ℤ
  pub owner_id : String

pub record DecisionRecord : Type 0 where
  pub owner_id : String
  pub timestamp : ℤ

pub data Callback : Type 0 where
  on_promoted on_demoted : Callback

-- `renewed_at` is no field of the source: the time at which the elector last got or kept the lock.
pub record Elector : Type 0 where
  pub cfg : ElectorConfig
  pub state : State
  pub stopped : Bool
  pub decisions : List DecisionRecord
  pub calls : List Callback
  pub renewed_at : ℤ

abbrev pub default_advisory_lock_id : ℤ
default_advisory_lock_id = pos 42424242

abbrev pub new_elector : ElectorConfig → Elector
new_elector cfg = record {
  cfg =
      if eqb_ℤ cfg.lock_id (pos 0) then record cfg { lock_id = default_advisory_lock_id } else cfg;
  state = standby;
  stopped = false;
  decisions = [];
  calls = [];
  renewed_at = pos 0;
}

abbrev pub is_leader : State → Bool
is_leader leader = true
is_leader _ = false

abbrev pub is_standby : State → Bool
is_standby standby = true
is_standby _ = false

-- A leader is FENCED while its callback runs, and STANDBY then.
unfoldable pub step_down : Elector → Elector
step_down e =
    if is_leader e.state
    then record e { state = standby; calls = e.calls ++ on_demoted ∷ [] }
    else e

-- The leader's branch of the campaign, from the answer of the lock on.
abbrev pub renewed : ℤ → Elector → Result String Bool → Elector
renewed now e (ok true) = record e { renewed_at = now }
renewed now e (ok false) = step_down e
renewed now e (err x) = step_down e

-- The other branch.
abbrev pub acquired : ℤ → Elector → Result String Bool → Elector
acquired now e (ok true) =
    if is_standby e.state
    then record e { state = leader; calls = e.calls ++ on_promoted ∷ []; renewed_at = now }
    else e
acquired now e (ok false) = e
acquired now e (err x) = e

-- One tick of the campaign loop.
unfoldable pub tick : ℤ → Elector → AdvisoryLock → Elector × AdvisoryLock
unfolding try_acquire renew_or_hold step_down
tick now e m =
    if is_leader e.state
    then (let (answer, m') = renew_or_hold now e.cfg.lock_id e.cfg.owner_id m in
        (renewed now e answer, m'))
    else let (answer, m') = try_acquire now e.cfg.lock_id e.cfg.owner_id m in
      (acquired now e answer, m')

unfoldable pub stop : Elector → AdvisoryLock → Elector × AdvisoryLock
unfolding step_down release
stop e m =
    if e.stopped
    then (e, m)
    else if is_leader e.state
    then (step_down (record e { stopped = true }), release e.cfg.lock_id e.cfg.owner_id m)
    else (record e { stopped = true }, m)

unfoldable pub record_decision : ℤ → Elector → Result Error ℤ × Elector
record_decision now e =
    if is_leader e.state
    then (
      ok now,
      record e {
        decisions = e.decisions ++ record { owner_id = e.cfg.owner_id; timestamp = now } ∷ [];
      },
    )
    else (err not_leader, e)
