-- ===== src/Deployments/Releases.antt =====
-- internal/deployments/repository.go: MemoryReleaseRepository. The map holds copies, so it holds the
-- records themselves. A new ID and the time are arguments.
use almichot_cloud.Prelude.{
  ℤ, String, ◌||◌, Option, none, some, List, [], ◌∷◌, Map, lookup, insert, str_eq, if◌then◌else◌,
  Result, ok, err, ◌≡◌, inl, inr, Bool-cases, In, here, there, eq_iff, lookup-insert_self,
}
use almichot_cloud.Deployments.Repository.{or_now}

pub data Error : Type 0 where
  release_not_found : Error

pub record Release : Type 0 where
  pub id : String
  pub project_id : String
  pub deployment_id : String
  pub version : String
  pub image_ref : String
  pub image_digest : String
  pub signature : String
  pub created_at : Option ℤ

abbrev pub Releases : Type 0
Releases = Map Release

-- NewMemoryReleaseRepository
abbrev pub no_releases : Releases
no_releases = []

abbrev pub or_new : String → String → String
or_new new_id id = if str_eq id "" then new_id else id

-- Create fills in the caller's record and stores a copy; both come back.
unfoldable pub create : ℤ → String → Release → Releases → Release × Releases
create now new_id rel m =
    let filled = record rel { id = or_new new_id rel.id; created_at = or_now now rel.created_at } in
    (filled, insert filled.id filled m)

abbrev pub found : Option Release → Result Error Release
found none = err release_not_found
found (some rel) = ok rel

unfoldable pub get : String → Releases → Result Error Release
get id m = found (lookup id m)

-- The first release with the digest that the `range` loop meets.
unfoldable pub get_by_digest : String → Releases → Result Error Release
get_by_digest digest [] = err release_not_found
get_by_digest digest ((id, rel) ∷ m) =
    let rest = get_by_digest digest m in if str_eq rel.image_digest digest then ok rel else rest

unfoldable pub list_by_project : String → Releases → List Release
list_by_project project [] = []
list_by_project project ((id, rel) ∷ m) =
    let rest = list_by_project project m in
    if str_eq rel.project_id project then rel ∷ rest else rest

-- All releases for the empty name.
unfoldable pub list : String → Releases → List Release
list project [] = []
list project ((id, rel) ∷ m) =
    let rest = list project m in
    if str_eq project "" || str_eq rel.project_id project then rel ∷ rest else rest

unfoldable pub wipe : Releases → Releases
wipe m = no_releases

-- What ListByProject lists belongs to the project.
pub list_by_project-In :
    (project : String) (m : Releases) (rel : Release)
    → In rel (list_by_project project m)
    → rel.project_id ≡ project
unfolding list_by_project
list_by_project-In project [] rel h = elim h [ ]
list_by_project-In project ((id, x) ∷ m) rel h =
    let rest = list_by_project-In project m rel in
    elim (Bool-cases (str_eq x.project_id project)) [
      | inl b ↦ listed rest ((eq_iff x.project_id project).0 b) (rw b at h)
      | inr b ↦ rest (rw b at h)
    ]
  where
    listed :
        (In rel (list_by_project project m) → rel.project_id ≡ project)
        → x.project_id ≡ project
        → In rel (x ∷ list_by_project project m)
        → rel.project_id ≡ project
    listed rest same (here e) = rw e same
    listed rest same (there t) = rest t

-- A release that is created under a new ID or its own is found again by its ID, and GetByDigest finds
-- some release with its digest.
pub create-get :
    (now : ℤ) (new_id : String) (rel : Release) (m : Releases)
    → let (filled, m') = create now new_id rel m in get filled.id m' ≡ ok filled
unfolding create get
create-get now new_id rel m = simp lookup-insert_self
