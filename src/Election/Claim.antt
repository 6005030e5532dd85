-- ===== src/Election/Claim.antt =====
-- internal/ha/election.go: what the lock's calls and one elector's steps leave of an elector's claim
-- to the lock.
use almichot_cloud.Prelude.{
  ℤ, String, ◌≡◌, ◌≢◌, refl, Bool, true, false, ◌≤ℤ◌, ◌<ℤ◌, arith, eq_iff, ◌⊎◌, inl, inr, some,
  time_sub, Bool-cases, Result, ok, err, ltb_ℤ,
}
use almichot_cloud.Election.{
  AdvisoryLock, Elector, tick, stop, step_down, is_leader, is_standby, renewed, acquired,
  try_acquire, renew_or_hold, release,
}

-- The lock is held for `owner` since `t`, or `t` is longer ago than the lease.
abbrev pub Covers : ℤ → AdvisoryLock → String → ℤ → Type 0
Covers now m owner t =
    ((m.current_owner ≡ owner) × (m.last_renew ≡ some t)) ⊎ (m.lease_ttl <ℤ time_sub now t)

abbrev pub IsCovered : ℤ → AdvisoryLock → Elector → Type 0
IsCovered now m e = is_leader e.state ≡ true → Covers now m e.cfg.owner_id e.renewed_at

time_sub_mono : (a b t : ℤ) → a ≤ℤ b → time_sub a t ≤ℤ time_sub b t
unfolding time_sub
time_sub_mono a b t h = ground arith

pub wait-IsCovered :
    (now later : ℤ) (m : AdvisoryLock) (e : Elector)
    → now ≤ℤ later
    → IsCovered now m e
    → IsCovered later m e
wait-IsCovered now later m e h c l = elim (c l) [
  | inl own ↦ inl own
  | inr old ↦ inr (omega (arith, time_sub_mono now later e.renewed_at h))
]

try_acquire-ok :
    (now id : ℤ) (owner : String) (m : AdvisoryLock)
    → (try_acquire now id owner m).0 ≡ ok true
    → Covers now (try_acquire now id owner m).1 owner now
unfolding try_acquire
try_acquire-ok now id owner m h = inl (ground arith)

renew_or_hold-ok :
    (now id : ℤ) (owner : String) (m : AdvisoryLock)
    → (renew_or_hold now id owner m).0 ≡ ok true
    → Covers now (renew_or_hold now id owner m).1 owner now
unfolding renew_or_hold
renew_or_hold-ok now id owner m h = inl (ground (arith, eq_iff m.current_owner owner))

-- Another owner's attempt takes the lock away only if the lease ran out.
try_acquire-Covers :
    (now id : ℤ) (owner other : String) (t : ℤ) (m : AdvisoryLock)
    → owner ≢ other
    → other ≢ ""
    → Covers now m other t
    → Covers now (try_acquire now id owner m).1 other t
unfolding try_acquire
try_acquire-Covers now id owner other t m ne named (inl (own, since_t)) =
    elim (Bool-cases (ltb_ℤ m.lease_ttl (time_sub now t))) [
      | inl x ↦ inr (ground arith)
      | inr x ↦ inl (ground (arith, eq_iff m.current_owner owner, eq_iff m.current_owner ""))
    ]
try_acquire-Covers now id owner other t m ne named (inr old) = inr (ground arith)

renew_or_hold-Covers :
    (now id : ℤ) (owner other : String) (t : ℤ) (m : AdvisoryLock)
    → owner ≢ other
    → Covers now m other t
    → Covers now (renew_or_hold now id owner m).1 other t
unfolding renew_or_hold
renew_or_hold-Covers now id owner other t m ne (inl own) =
    inl (ground (arith, eq_iff m.current_owner owner))
renew_or_hold-Covers now id owner other t m ne (inr old) = inr (ground arith)

release-Covers :
    (now id : ℤ) (owner other : String) (t : ℤ) (m : AdvisoryLock)
    → owner ≢ other
    → Covers now m other t
    → Covers now (release id owner m) other t
unfolding release
release-Covers now id owner other t m ne (inl own) =
    inl (ground (arith, eq_iff m.current_owner owner))
release-Covers now id owner other t m ne (inr old) = inr (ground arith)

renewed-IsCovered :
    (now : ℤ) (m : AdvisoryLock) (e : Elector) (a : Result String Bool)
    → (a ≡ ok true → Covers now m e.cfg.owner_id now)
    → IsCovered now m (renewed now e a)
unfolding step_down
renewed-IsCovered now m e (ok true) h l = h refl
renewed-IsCovered now m e (ok false) h l = absurd (ground arith)
renewed-IsCovered now m e (err x) h l = absurd (ground arith)

acquired-IsCovered :
    (now : ℤ) (m : AdvisoryLock) (e : Elector) (a : Result String Bool)
    → is_leader e.state ≡ false
    → (a ≡ ok true → Covers now m e.cfg.owner_id now)
    → IsCovered now m (acquired now e a)
acquired-IsCovered now m e (ok true) f h l = elim (Bool-cases (is_standby e.state)) [
  | inl b ↦ rw b (h refl)
  | inr b ↦ absurd (ground arith)
]
acquired-IsCovered now m e (ok false) f h l = absurd (ground arith)
acquired-IsCovered now m e (err x) f h l = absurd (ground arith)

pub tick-IsCovered :
    (now : ℤ) (m : AdvisoryLock) (e : Elector) → IsCovered now (tick now e m).1 (tick now e m).0
unfolding tick
tick-IsCovered now m e = elim (Bool-cases (is_leader e.state)) [
  | inl b ↦ rw b (
      renewed-IsCovered now (renew_or_hold now e.cfg.lock_id e.cfg.owner_id m).1 e _
        (renew_or_hold-ok now e.cfg.lock_id e.cfg.owner_id m))
  | inr b ↦ rw b (
      acquired-IsCovered now (try_acquire now e.cfg.lock_id e.cfg.owner_id m).1 e _ b
        (try_acquire-ok now e.cfg.lock_id e.cfg.owner_id m))
]

pub tick-Covers :
    (now : ℤ) (other : String) (t : ℤ) (m : AdvisoryLock) (e : Elector)
    → e.cfg.owner_id ≢ other
    → other ≢ ""
    → Covers now m other t
    → Covers now (tick now e m).1 other t
unfolding tick
tick-Covers now other t m e ne named c = elim (Bool-cases (is_leader e.state)) [
  | inl b ↦ rw b (renew_or_hold-Covers now e.cfg.lock_id e.cfg.owner_id other t m ne c)
  | inr b ↦ rw b (try_acquire-Covers now e.cfg.lock_id e.cfg.owner_id other t m ne named c)
]

pub stop-IsCovered :
    (now : ℤ) (m : AdvisoryLock) (e : Elector)
    → IsCovered now m e
    → IsCovered now (stop e m).1 (stop e m).0
unfolding stop
stop-IsCovered now m e c = elim (Bool-cases e.stopped) [
  | inl a ↦ rw a c
  | inr a ↦ elim (Bool-cases (is_leader e.state)) [
    | inl b ↦ λ l. absurd (ground arith)
    | inr b ↦ λ l. absurd (ground arith)
  ]
]

pub stop-Covers :
    (now : ℤ) (other : String) (t : ℤ) (m : AdvisoryLock) (e : Elector)
    → e.cfg.owner_id ≢ other
    → Covers now m other t
    → Covers now (stop e m).1 other t
unfolding stop
stop-Covers now other t m e ne c = elim (Bool-cases e.stopped) [
  | inl a ↦ rw a c
  | inr a ↦ elim (Bool-cases (is_leader e.state)) [
    | inl b ↦ rw (a, b) (release-Covers now e.cfg.lock_id e.cfg.owner_id other t m ne c)
    | inr b ↦ rw (a, b) c
  ]
]
