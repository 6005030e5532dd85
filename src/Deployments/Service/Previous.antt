-- ===== src/Deployments/Service/Previous.antt =====
-- internal/deployments/service.go, Rollback: which release it goes back to.
use almichot_cloud.Prelude.{
  String, ◌≡◌, ◌≢◌, refl, ap, true, false, Option, none, some, List, [], ◌∷◌, ◌++◌, arith, eq_iff,
  str_eq, inl, inr, Bool-cases, Option-cases, lookup, In, here, there,
}
use almichot_cloud.Deployments.Lifecycle.{
  Deployment, DeploymentStatus, queued, building, built, scheduling, starting, stopped, running,
  failed, rolled_back, status_eq,
}
use almichot_cloud.Deployments.Repository.{Deployments}
use almichot_cloud.Deployments.Repository
use almichot_cloud.Deployments.Releases.{Release}
use almichot_cloud.Deployments.Service.RollingBack.{is_candidate, previous_release}

-- A release to go back to: it belongs to another deployment than the current one and has a
-- digest, and its deployment, where it names one that is stored, has not failed.
pub record IsGood (current : String) (m : Deployments) (rel : Release) : Type 0 where
  pub another : rel.deployment_id ≢ current
  pub digested : rel.image_digest ≢ ""
  pub not_failed :
      (d : Deployment)
      → rel.deployment_id ≢ ""
      → lookup rel.deployment_id m ≡ some d
      → d.status ≢ failed

-- The release that is chosen is a good one of the list, and no release before it is; where none is
-- chosen, none of the list is good.
abbrev pub IsFirst : String → Deployments → List Release → Option Release → Type 0
IsFirst current m rels none = (rel : Release) → In rel rels → ¬ IsGood current m rel
IsFirst current m rels (some rel) =
    (before : List Release) × (after : List Release) × (rels ≡ before ++ rel ∷ after)
    × IsGood current m rel
    × ((x : Release) → In x before → ¬ IsGood current m x)

not_failed_lem : (st : DeploymentStatus) → status_eq st failed ≡ false → st ≢ failed
not_failed_lem st h e = ground (arith, status_failed)
  where
    status_failed : status_eq st failed ≡ true
    status_failed = rw e refl

is_failed_lem : (st : DeploymentStatus) → status_eq st failed ≡ true → st ≡ failed
is_failed_lem failed h = refl
is_failed_lem queued h = cc
is_failed_lem building h = cc
is_failed_lem built h = cc
is_failed_lem scheduling h = cc
is_failed_lem starting h = cc
is_failed_lem running h = cc
is_failed_lem stopped h = cc
is_failed_lem rolled_back h = cc

is_candidate-IsGood :
    (current : String) (m : Deployments) (rel : Release)
    → is_candidate current m rel ≡ true
    → IsGood current m rel
unfolding is_candidate Repository.get_by_id
is_candidate-IsGood current m rel h = record {
  another = ground (arith, eq_iff rel.deployment_id current);
  digested = ground (arith, eq_iff rel.image_digest "");
  not_failed = λ d named at.
      let empty : str_eq rel.deployment_id "" ≡ false =
        ground (arith, eq_iff rel.deployment_id "") in
      let k = rw (at, empty) at h in not_failed_lem d.status (ground arith);
}

IsGood-is_candidate :
    (current : String) (m : Deployments) (rel : Release)
    → is_candidate current m rel ≡ false
    → ¬ IsGood current m rel
unfolding is_candidate Repository.get_by_id
IsGood-is_candidate current m rel h good = elim (Bool-cases (str_eq rel.deployment_id "")) [
  | inl b ↦ ground (
    arith,
    eq_iff rel.deployment_id current,
    eq_iff rel.image_digest "",
    good.another,
    good.digested,
  )
  | inr b ↦ elim (Option-cases (lookup rel.deployment_id m)) [
    | inl e ↦
        let k = rw (b, e) at h in
        ground (
          arith,
          eq_iff rel.deployment_id current,
          eq_iff rel.image_digest "",
          good.another,
          good.digested,
        )
    | inr (d, e) ↦
        let k = rw (b, e) at h in
        let other : str_eq rel.deployment_id current ≡ false =
          ground (arith, eq_iff rel.deployment_id current, good.another) in
        let full : str_eq rel.image_digest "" ≡ false =
          ground (arith, eq_iff rel.image_digest "", good.digested) in
        good.not_failed d (λ z. ground (arith, eq_iff rel.deployment_id "")) e
          (is_failed_lem d.status (ground arith))
  ]
]

pub previous_release-IsFirst :
    (current : String) (m : Deployments) (rels : List Release)
    → IsFirst current m rels (previous_release current m rels)
unfolding previous_release
previous_release-IsFirst current m [] = λ rel v. elim v [ ]
previous_release-IsFirst current m (r ∷ rels) = elim (Bool-cases (is_candidate current m r)) [
  | inl b ↦ rw b ([], rels, refl, is_candidate-IsGood current m r b, λ x v. elim v [ ])
  | inr b ↦ rw b (
      push (previous_release current m rels) (IsGood-is_candidate current m r b)
        (previous_release-IsFirst current m rels))
]
  where
    not_in :
        (xs : List Release)
        → ¬ IsGood current m r
        → ((x : Release) → In x xs → ¬ IsGood current m x)
        → (x : Release) → In x (r ∷ xs)
        → ¬ IsGood current m x
    not_in xs b h x (here e) = rw e b
    not_in xs b h x (there v) = h x v

    push :
        (o : Option Release)
        → ¬ IsGood current m r
        → IsFirst current m rels o
        → IsFirst current m (r ∷ rels) o
    push none b h = not_in rels b h
    push (some rel) b (before, after, e, good, h) =
        (r ∷ before, after, ap (λ (l : List Release). r ∷ l) e, good, not_in before b h)
