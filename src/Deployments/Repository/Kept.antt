-- ===== src/Deployments/Repository/Kept.antt =====
-- internal/deployments/repository.go, MemoryDeploymentRepository: what the stored records keep.
use almichot_cloud.Prelude.{
  ℤ, String, ◌≡◌, ◌≢◌, ◌⊎◌, inl, inr, refl, sym, ap, ◌∙◌, Option, none, some, [], ◌∷◌, In, here,
  there, lookup, insert, str_eq, ok, arith, eq_iff, Bool-cases, if◌then◌else◌, lookup-insert,
  lookup-insert_cases,
}
use almichot_cloud.Deployments.Lifecycle.{Deployment, DeploymentStatus}
use almichot_cloud.Deployments.Repository.{
  Deployments, create, change, update_status, update_image, update_scale, list, wipe,
}

-- Every record is stored under its own ID.
abbrev pub IsKeyed : Deployments → Type 0
IsKeyed m = (i : String) (d : Deployment) → lookup i m ≡ some d → d.id ≡ i

-- What a change of one record leaves: the changed record, or a record that was there before under
-- another ID.
pub change-cases :
    (f : Deployment → Deployment) (i j : String) (m m' : Deployments) (o : Option Deployment)
    → (d' : Deployment) → lookup i m ≡ o
    → change f i m o ≡ ok m'
    → lookup j m' ≡ some d'
    → ((d : Deployment) × (lookup i m ≡ some d) × (i ≡ j) × (f d ≡ d'))
      ⊎ ((i ≢ j) × (lookup j m ≡ some d'))
change-cases f i j m m' none d' at h e = cc
change-cases f i j m m' (some d) d' at h e =
    let written : insert i (f d) m ≡ m' = cc in
    let read : (if str_eq i j then some (f d) else lookup j m) ≡ some d' =
      sym (lookup-insert i j (f d) m) ∙ (rw written e) in
    elim (Bool-cases (str_eq i j)) [
      | inl b ↦ inl (d, at, (eq_iff i j).0 b, some-inj (rw b at read))
      | inr b ↦ inr (λ ij. absurd (ground (arith, eq_iff i j)), rw b at read)
    ]
  where
    some-inj : {x y : Deployment} → some x ≡ some y → x ≡ y
    some-inj e = cc

IsKeyed-change :
    (f : Deployment → Deployment) (i : String) (m m' : Deployments)
    → ((d : Deployment) → (f d).id ≡ d.id)
    → IsKeyed m
    → change f i m (lookup i m) ≡ ok m'
    → IsKeyed m'
IsKeyed-change f i m m' same k h j d' e = cases (change-cases f i j m m' (lookup i m) d' refl h e)
  where
    cases :
        ((d : Deployment) × (lookup i m ≡ some d) × (i ≡ j) × (f d ≡ d'))
          ⊎ ((i ≢ j) × (lookup j m ≡ some d'))
        → d'.id ≡ j
    cases (inl (d, at, ij, fd)) =
        ap (λ (x : Deployment). x.id) (sym fd) ∙ (same d ∙ (k i d at ∙ ij))
    cases (inr (ne, at)) = k j d' at

-- An operation of the repository, with its effect on the stored records.
pub data Stored : Deployments → Deployments → Type 0 where
  creates : {m : Deployments} (now : ℤ) (d : Deployment) → Stored m (create now d m).1
  sets_status :
      {m m' : Deployments} (now : ℤ) (i : String) (s : DeploymentStatus) (stage : String)
      → update_status now i s stage m ≡ ok m'
      → Stored m m'
  sets_image :
      {m m' : Deployments} (now : ℤ) (i image digest : String)
      → update_image now i image digest m ≡ ok m'
      → Stored m m'
  sets_scale :
      {m m' : Deployments} (now : ℤ) (i : String) (count : ℤ)
      → update_scale now i count m ≡ ok m'
      → Stored m m'
  wipes : {m : Deployments} → Stored m (wipe m)

-- Every operation of the repository keeps each record under its own ID.
pub Stored-IsKeyed : (m m' : Deployments) → Stored m m' → IsKeyed m → IsKeyed m'
unfolding create update_status update_image update_scale wipe lookup
Stored-IsKeyed m m' (creates now d) k i x e =
    by (lookup-insert_cases d.id i (create now d m).0 x m e)
  where
    by : ((d.id ≡ i) × ((create now d m).0 ≡ x)) ⊎ (lookup i m ≡ some x) → x.id ≡ i
    by (inl (di, v)) = ap (λ (y : Deployment). y.id) (sym v) ∙ di
    by (inr at) = k i x at
Stored-IsKeyed m m' (sets_status now i s stage h) k j x e =
    IsKeyed-change _ i m m' (λ d. refl) k h j x e
Stored-IsKeyed m m' (sets_image now i image digest h) k j x e =
    IsKeyed-change _ i m m' (λ d. refl) k h j x e
Stored-IsKeyed m m' (sets_scale now i count h) k j x e =
    IsKeyed-change _ i m m' (λ d. refl) k h j x e
Stored-IsKeyed m m' wipes k i x e = absurd (ground arith)

-- What GetByID finds, List lists.
pub In-list :
    (i : String) (d : Deployment) (m : Deployments) → lookup i m ≡ some d → In d (list "" m)
unfolding lookup list
In-list i d [] h = absurd (ground arith)
In-list i d ((j, x) ∷ m) h = elim (Bool-cases (str_eq j i)) [
  | inl b ↦ let e : some x ≡ some d = rw b at h in here cc
  | inr b ↦ there (In-list i d m (rw b at h))
]
