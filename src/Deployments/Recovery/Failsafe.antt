-- ===== src/Deployments/Recovery/Failsafe.antt =====
-- internal/deployments/recovery.go, RecoverDeployments: nothing is in flight afterwards.
use almichot_cloud.Prelude.{
  ℤ, String, ◌≡◌, ◌≢◌, ◌⊎◌, inl, inr, refl, sym, ap, ◌∙◌, Bool, true, false, Option, none, some,
  List, [], ◌∷◌, In, here, there, lookup, Result, ok, err, filter, Bool-cases,
}
use almichot_cloud.Deployments.Lifecycle.{
  Deployment, DeploymentStatus, queued, building, built, scheduling, starting, running, failed,
  stopped, rolled_back, is_in_flight,
}
use almichot_cloud.Deployments.Repository.{
  Error, Deployments, change, with_status, list, update_status, update_image,
}
use almichot_cloud.Deployments.Repository.Kept.{IsKeyed, change-cases, In-list}
use almichot_cloud.Deployments.Recovery.{
  RecoveryEngine, Recovering, RecoveryReport, or_old, fail, concluded, count_queued, count_building,
  count_scheduling, count_starting, scheduling_failed, starting_failed, recover_one, recover_all,
  detect_stuck_deployments, recover_deployments,
}

-- A record after the recovery of some deployments: FAILED, or the record before, which none of them
-- named.
abbrev IsLeft : List Deployment → Deployments → String → Deployment → Type 0
IsLeft ds m j d' =
    (d'.status ≡ failed) ⊎ ((lookup j m ≡ some d') × ((d : Deployment) → In d ds → d.id ≢ j))

-- The records after one deployment was failed.
abbrev IsFailed : Deployment → Deployments → Deployments → Type 0
IsFailed d m m' =
    (j : String) (d' : Deployment)
    → lookup j m' ≡ some d'
    → (d'.status ≡ failed) ⊎ ((lookup j m ≡ some d') × (d.id ≢ j))

fail-IsFailed :
    (now : ℤ) (d : Deployment) (stage : String) (m : Deployments)
    → IsFailed d m (or_old m (fail now d stage m))
unfolding update_status
fail-IsFailed now d stage m j d' = by (lookup d.id m) refl
  where
    by :
        (o : Option Deployment)
        → lookup d.id m ≡ o
        → lookup j (or_old m (change (with_status now failed stage) d.id m o)) ≡ some d'
        → (d'.status ≡ failed) ⊎ ((lookup j m ≡ some d') × (d.id ≢ j))
    by none at h = inr (h, λ e. absurd (cc))
    by (some x) at h =
        after (change-cases (with_status now failed stage) d.id j m _ (some x) d' at refl h)
      where
        after :
            ((y : Deployment) × (lookup d.id m ≡ some y)
                × (d.id ≡ j)
                × (with_status now failed stage y ≡ d'))
              ⊎ ((d.id ≢ j) × (lookup j m ≡ some d'))
            → (d'.status ≡ failed) ⊎ ((lookup j m ≡ some d') × (d.id ≢ j))
        after (inl (y, at, e, v)) = inl (ap (λ (z : Deployment). z.status) (sym v))
        after (inr (ne, at)) = inr (at, ne)

concluded-deployments :
    (d : Deployment) (stage : String) (count : RecoveryReport → RecoveryReport) (s : Recovering)
    → (r : Result Error Deployments)
    → (concluded d stage count s r).deployments ≡ or_old s.deployments r
concluded-deployments d stage count s (ok m) = refl
concluded-deployments d stage count s (err e) = refl

change-other :
    (f : Deployment → Deployment) (i j : String) (m : Deployments) (d' : Deployment)
    → (o : Option Deployment) → lookup i m ≡ o
    → i ≢ j
    → lookup j (or_old m (change f i m o)) ≡ some d'
    → lookup j m ≡ some d'
change-other f i j m d' none at ne h = h
change-other f i j m d' (some x) at ne h = by (change-cases f i j m _ (some x) d' at refl h)
  where
    by :
        ((y : Deployment) × (lookup i m ≡ some y) × (i ≡ j) × (f y ≡ d'))
          ⊎ ((i ≢ j) × (lookup j m ≡ some d'))
        → lookup j m ≡ some d'
    by (inl (y, at, e, v)) = absurd (ne e)
    by (inr (n, at)) = at

-- The state after one stuck deployment, in the terms of `IsFailed`.
abbrev Fails : Deployment → Recovering → Recovering → Type 0
Fails d s t = IsFailed d s.deployments t.deployments

plain-Fails :
    (now : ℤ) (d : Deployment) (stage note : String) (count : RecoveryReport → RecoveryReport)
    → (s : Recovering) → Fails d s (concluded d note count s (fail now d stage s.deployments))
plain-Fails now d stage note count s j d' h =
    fail-IsFailed now d stage s.deployments j d'
      (rw (← concluded-deployments d note count s (fail now d stage s.deployments)) h)

cleared-Fails :
    (now : ℤ) (d : Deployment) (stage note : String) (count : RecoveryReport → RecoveryReport)
    → (s : Recovering)
    → let m = or_old s.deployments (update_image now d.id "" "" s.deployments) in
      Fails d s (concluded d note count (record s { deployments = m }) (fail now d stage m))
unfolding update_image
cleared-Fails now d stage note count s j d' h =
    by (plain-Fails now d stage note count (record s { deployments = m }) j d' h)
  where
    m : Deployments
    m = or_old s.deployments (update_image now d.id "" "" s.deployments)

    by :
        (d'.status ≡ failed) ⊎ ((lookup j m ≡ some d') × (d.id ≢ j))
        → (d'.status ≡ failed) ⊎ ((lookup j s.deployments ≡ some d') × (d.id ≢ j))
    by (inl e) = inl e
    by (inr (at, ne)) =
        inr (change-other _ d.id j s.deployments d' (lookup d.id s.deployments) refl ne at, ne)

recover_one-Fails :
    (now : ℤ) (e : RecoveryEngine) (d : Deployment) (status : DeploymentStatus) (s : Recovering)
    → Fails d s (recover_one now e d status s)
unfolding recover_one
recover_one-Fails now e d queued s =
    plain-Fails now d "QUEUED_INTERRUPTED_CP_CRASH" " (QUEUED): " count_queued s
recover_one-Fails now e d building s =
    cleared-Fails now d "BUILD_INTERRUPTED_CP_CRASH" " (BUILDING): " count_building s
recover_one-Fails now e d built s =
    plain-Fails now d "SCHEDULING_INTERRUPTED_CP_CRASH" " (SCHEDULING): " count_scheduling
      (scheduling_failed now d s)
recover_one-Fails now e d scheduling s =
    plain-Fails now d "SCHEDULING_INTERRUPTED_CP_CRASH" " (SCHEDULING): " count_scheduling
      (scheduling_failed now d s)
recover_one-Fails now e d starting s =
    plain-Fails now d "STARTUP_INTERRUPTED_CP_CRASH" " (STARTING): " count_starting
      (starting_failed now e d s)
recover_one-Fails now e d running s = fail-IsFailed now d _ s.deployments
recover_one-Fails now e d failed s = fail-IsFailed now d _ s.deployments
recover_one-Fails now e d stopped s = fail-IsFailed now d _ s.deployments
recover_one-Fails now e d rolled_back s = fail-IsFailed now d _ s.deployments

recover_all-IsLeft :
    (now : ℤ) (e : RecoveryEngine) (ds : List Deployment) (s : Recovering) (j : String)
    → (d' : Deployment) → lookup j (recover_all now e ds s).deployments ≡ some d'
    → IsLeft ds s.deployments j d'
unfolding recover_all
recover_all-IsLeft now e [] s j d' h = inr (h, λ d v. elim v [ ])
recover_all-IsLeft now e (d ∷ ds) s j d' h =
    rest (recover_all-IsLeft now e ds (recover_one now e d d.status s) j d' h)
  where
    first :
        ((x : Deployment) → In x ds → x.id ≢ j)
        → (d'.status ≡ failed) ⊎ ((lookup j s.deployments ≡ some d') × (d.id ≢ j))
        → IsLeft (d ∷ ds) s.deployments j d'
    first others (inl e) = inl e
    first others (inr (at, ne)) = inr (at, others')
      where
        others' : (x : Deployment) → In x (d ∷ ds) → x.id ≢ j
        others' x (here e) q = ne (ap (λ (z : Deployment). z.id) (sym e) ∙ q)
        others' x (there v) q = others x v q

    rest :
        IsLeft ds (recover_one now e d d.status s).deployments j d'
        → IsLeft (d ∷ ds) s.deployments j d'
    rest (inl e) = inl e
    rest (inr (at, others)) = first others (recover_one-Fails now e d d.status s j d' at)

In-filter_back :
    (p : Deployment → Bool) (x : Deployment) (xs : List Deployment)
    → In x xs
    → p x ≡ true
    → In x (filter p xs)
In-filter_back p x [] v h = elim v [ ]
In-filter_back p x (y ∷ ys) (here e) h = rw (← e, h) (here refl)
In-filter_back p x (y ∷ ys) (there v) h = elim (Bool-cases (p y)) [
  | inl b ↦ rw b (there (In-filter_back p x ys v h))
  | inr b ↦ rw b (In-filter_back p x ys v h)
]

-- After RecoverDeployments on records that are stored under their own IDs, every record that GetByID
-- finds is either FAILED, or it is the very record that was found before and is not in flight.
pub recover_deployments-IsLeft :
    (now : ℤ) (e : RecoveryEngine) (j : String) (d' : Deployment)
    → IsKeyed e.dep_repo
    → lookup j (recover_deployments now e).deployments ≡ some d'
    → (d'.status ≡ failed) ⊎ ((lookup j e.dep_repo ≡ some d') × (is_in_flight d'.status ≡ false))
unfolding recover_deployments detect_stuck_deployments
recover_deployments-IsLeft now e j d' keyed h =
    by (recover_all-IsLeft now e (detect_stuck_deployments e.dep_repo) _ j d' h)
  where
    by :
        IsLeft (detect_stuck_deployments e.dep_repo) e.dep_repo j d'
        → (d'.status ≡ failed)
          ⊎ ((lookup j e.dep_repo ≡ some d') × (is_in_flight d'.status ≡ false))
    by (inl f) = inl f
    by (inr (at, others)) = elim (Bool-cases (is_in_flight d'.status)) [
      | inl b ↦ absurd (
          others d'
            (In-filter_back (λ d. is_in_flight d.status) d' (list "" e.dep_repo)
              (In-list j d' e.dep_repo at) b)
            (keyed j d' at))
      | inr b ↦ inr (at, b)
    ]
