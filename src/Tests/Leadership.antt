-- ===== src/Tests/Leadership.antt =====
-- Leader election on concrete data.
use Prim.Native.String.{◌∷◌ as char_cons}
use text.Mathlib.TextLemmas.{cons≢nil, tail-eq_of_cons-eq}
use almichot_cloud.Prelude.{
  ℕ, zero, suc, pos, String, ◌≡◌, ◌≢◌, refl, sym, ap, true, some, [], ok, time_sub, lookup, insert,
  arith, eq_iff,
}
use almichot_cloud.Election.{
  AdvisoryLock, ElectorConfig, try_acquire, tick, record_decision, partition,
}
use almichot_cloud.Election.Lease.{holder, try_acquire-attempt}
use almichot_cloud.Election.System.{
  Cluster, Reach, begin, next, campaign, wait, cut, initial, replace,
}
use almichot_cloud.Election.Exclusion.{leader_unique}

-- "cp-1" holds a lease of 10 since the time 5.
abbrev held : AdvisoryLock
held = record {
  current_owner = "cp-1";
  current_lock = pos 1;
  last_renew = some (pos 5);
  lease_ttl = pos 10;
  partitions = [];
}

try_acquire-attempt_example :
    ((try_acquire (pos 16) (pos 1) "cp-2" held).0 ≡ ok true)
    × (holder (pos 16) (try_acquire (pos 16) (pos 1) "cp-2" held).1 ≡ some "cp-2")
unfolding time_sub lookup
try_acquire-attempt_example =
    try_acquire-attempt (pos 16) (pos 1) "cp-2" held (ground (arith, eq_iff "cp-2" "")) refl
      (omega arith)

-- A name for each elector.
abbrev name : ℕ → String
name zero = "a"
name (suc k) = char_cons "a" (name k)

name-nonempty : (k : ℕ) → name k ≢ ""
name-nonempty zero e = cons≢nil e
name-nonempty (suc k) e = cons≢nil e

name-inj : (k l : ℕ) → name k ≡ name l → k ≡ l
name-inj zero zero e = refl
name-inj zero (suc l) e = absurd (name-nonempty l (sym (tail-eq_of_cons-eq e)))
name-inj (suc k) zero e = absurd (name-nonempty k (tail-eq_of_cons-eq e))
name-inj (suc k) (suc l) e = ap suc (name-inj k l (tail-eq_of_cons-eq e))

abbrev configs : ℕ → ElectorConfig
configs k = record { lock_id = pos 1; owner_id = name k }

-- The first elector has got the lock.
abbrev led : Cluster
led = let s = initial configs (pos 10) (pos 5) in replace 0 (tick s.now (s.electors 0) s.lock) s

leader_unique_example : ◌≡◌ {A = ℕ} 0 0
unfolding tick lookup time_sub
leader_unique_example =
    leader_unique configs (pos 10) (pos 5) {s = led} 0 0 name-nonempty name-inj
      (next begin (campaign 0)) refl refl (omega arith) (omega arith)

-- A leader that is cut off from the lock for longer than the lease still takes itself for the
-- leader, and decides, until its next tick, while another elector leads already.
abbrev split : Cluster
split =
    let cut_off = record led { lock = partition (name 0) true led.lock; now = pos 16 } in
    replace 1 (tick (pos 16) (cut_off.electors 1) cut_off.lock) cut_off

split_reached : Reach (initial configs (pos 10) (pos 5)) split
unfolding tick lookup
split_reached =
    next (next (next (next begin (campaign 0)) (cut (name 0) true)) (wait (pos 16) (omega arith)))
      (campaign 1)

both_decide :
    ((record_decision (pos 16) (split.electors 0)).0 ≡ ok (pos 16))
    × ((record_decision (pos 16) (split.electors 1)).0 ≡ ok (pos 16))
unfolding record_decision tick partition insert lookup time_sub
both_decide = (refl, refl)
