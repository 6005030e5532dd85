-- ===== src/Election/Lease.antt =====
-- internal/ha/election.go: MemoryAdvisoryLock as a lease. What a caller can rely on is who holds the
-- lock now: nobody, or one owner whose last renewal is at most `lease_ttl` ago.
use almichot_cloud.Prelude.{
  ℤ, String, ◌≡◌, ◌≢◌, Bool, true, false, ◌&&◌, not, Option, none, some, str_eq, if◌then◌else◌, ok,
  ltb_ℤ, arith, eq_iff, ◌≤ℤ◌, Bool-cases, inl, inr, time_sub, pos,
}
use almichot_cloud.Election.{AdvisoryLock, is_partitioned, since, try_acquire}

-- The abstract lock: its holder, if there is one, and the attempt to get it.
abbrev pub attempt : String → Option String → Bool × Option String
attempt owner none = (true, some owner)
attempt owner (some h) = if str_eq h owner then (true, some owner) else (false, some h)

-- The holder at a time.
abbrev pub holder : ℤ → AdvisoryLock → Option String
holder now m =
    if str_eq m.current_owner ""
    then none
    else if ltb_ℤ m.lease_ttl (since now m.last_renew)
    then none
    else some m.current_owner

-- A lease that is renewed now has not run out.
pub not_expired_now : (now ttl : ℤ) → pos 0 ≤ℤ ttl → ltb_ℤ ttl (since now (some now)) ≡ false
unfolding time_sub
not_expired_now now ttl h = ground arith

named-not_empty : (owner : String) → owner ≢ "" → str_eq owner "" ≡ false
named-not_empty owner named = ground (arith, eq_iff owner "")

-- TryAcquire of an owner that has a name and reaches the lock's store does what the abstract lock
-- does: it succeeds exactly when nobody else holds the lease, and the holder afterwards is the one
-- that the abstract attempt leaves. The lease is not negative.
pub try_acquire-attempt :
    (now id : ℤ) (owner : String) (m : AdvisoryLock)
    → owner ≢ ""
    → is_partitioned owner m ≡ false
    → pos 0 ≤ℤ m.lease_ttl
    → ((try_acquire now id owner m).0 ≡ ok (attempt owner (holder now m)).0)
      × (holder now (try_acquire now id owner m).1 ≡ (attempt owner (holder now m)).1)
unfolding try_acquire
try_acquire-attempt now id owner m named reached pos_ttl =
    let fresh = not_expired_now now m.lease_ttl pos_ttl in
    let full = named-not_empty owner named in
    elim (Bool-cases (str_eq m.current_owner "")) [
      | inl e ↦ ground (arith, fresh, full, eq_iff m.current_owner "")
      | inr e ↦ elim (Bool-cases (str_eq m.current_owner owner)) [
        | inl o ↦ ground (arith, fresh, full, eq_iff m.current_owner owner)
        | inr o ↦ elim (Bool-cases (ltb_ℤ m.lease_ttl (since now m.last_renew))) [
          | inl x ↦
              rw (reached, e, o, x, if◌then◌else◌, ◌&&◌, not, attempt) (ground (arith, fresh, full))
          | inr x ↦
              rw (reached, e, o, x, if◌then◌else◌, ◌&&◌, not, attempt) (ground (arith, fresh, full))
        ]
      ]
    ]
