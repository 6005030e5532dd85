-- ===== src/Images.antt =====
-- internal/registry/client.go, digest.go and gc.go: MemoryRegistry, its digests and its garbage
-- collector. The hash is a parameter. The locks make each operation one step; the counts of what
-- is in memory are far below 2^63.
use Prim.Native.String.{◌++◌ as append}
use almichot_cloud.Prelude.{
  ℕ, suc, ◌+◌, String, Bool, true, false, Option, none, some, List, [], ◌∷◌, Map, lookup, insert,
  delete, length, str_eq, is_some, if◌then◌else◌, Result, ok, err, to_lower, trim_space,
}
pub mod Collected
pub mod Steps
pub mod Policy
pub mod Server

abbrev pub Bytes : Type 0
Bytes = List ℕ

pub data Error : Type 0 where
  image_not_found : String → Error
  registry_unavailable : Error
  empty_tag : Error
  invalid_digest : Error
  digest_mismatch : Error

pub record StoredImage : Type 0 where
  pub tag : String
  pub digest : String
  pub payload : Bytes

pub record MemoryRegistry : Type 0 where
  pub images : Map StoredImage
  pub available : Bool

-- NewMemoryRegistry
abbrev pub new_registry : MemoryRegistry
new_registry = record { images = []; available = true }

unfoldable pub set_available : Bool → MemoryRegistry → MemoryRegistry
set_available available r = record r { available = available }

-- ComputeDigest; the argument is SHA-256 in hexadecimal.
unfoldable pub compute_digest : (Bytes → String) → Bytes → String
compute_digest sha256 payload = append "sha256:" (sha256 payload)

abbrev verify_trimmed : String → String → Option Error
verify_trimmed expected actual =
    if str_eq expected ""
    then some invalid_digest
    else if str_eq actual ""
    then some invalid_digest
    else if str_eq expected actual
    then none
    else some digest_mismatch

unfoldable pub verify_digest : String → String → Option Error
verify_digest expected actual =
    verify_trimmed (trim_space (to_lower expected)) (trim_space (to_lower actual))

-- The check that Push makes of a digest that it is given.
abbrev pub check_expected : String → String → Option Error
check_expected expected actual = if str_eq expected "" then none else verify_digest expected actual

abbrev store : StoredImage → Option Error → MemoryRegistry → Result Error String × MemoryRegistry
store image (some e) r = (err e, r)
store image none r = (ok image.digest, record r { images = insert image.tag image r.images })

unfoldable pub push :
    (Bytes → String)
    → String
    → Bytes
    → String
    → MemoryRegistry
    → Result Error String × MemoryRegistry
push sha256 tag payload expected r =
    let actual = compute_digest sha256 payload in
    let image : StoredImage = record { tag = tag; digest = actual; payload = payload } in
    if r.available
    then if str_eq tag ""
      then (err empty_tag, r)
      else store image (check_expected expected actual) r
    else (err registry_unavailable, r)

abbrev pub found : String → Option StoredImage → Result Error StoredImage
found tag none = err (image_not_found tag)
found tag (some image) = ok image

abbrev stored_image : String → MemoryRegistry → Result Error StoredImage
stored_image tag r =
    if r.available then found tag (lookup tag r.images) else err registry_unavailable

abbrev digest_of : Result Error StoredImage → Result Error String
digest_of (err e) = err e
digest_of (ok image) = ok image.digest

abbrev content_of : Result Error StoredImage → Result Error (Bytes × String)
content_of (err e) = err e
content_of (ok image) = ok (image.payload, image.digest)

unfoldable pub get_digest : String → MemoryRegistry → Result Error String
get_digest tag r = digest_of (stored_image tag r)

unfoldable pub pull : String → MemoryRegistry → Result Error (Bytes × String)
pull tag r = content_of (stored_image tag r)

unfoldable pub has_image : String → MemoryRegistry → Bool
has_image tag r = if r.available then is_some (lookup tag r.images) else false

pub record GcResult : Type 0 where
  pub deleted_images : ℕ
  pub deleted_blobs : ℕ
  pub reclaimed_bytes : ℕ
  pub retained_images : ℕ

abbrev pub nothing_collected : GcResult
nothing_collected = record {
  deleted_images = 0;
  deleted_blobs = 0;
  reclaimed_bytes = 0;
  retained_images = 0;
}

-- The set `active` that the collector builds.
unfoldable pub mark : List String → Map Bool
mark [] = []
mark (d ∷ ds) = insert d true (mark ds)

-- active[digest]
unfoldable pub is_active : Map Bool → String → Bool
is_active active digest = elim (lookup digest active) [ none ↦ false | some b ↦ b ]

-- The body of the loop of GarbageCollect.
unfoldable pub collect_one :
    Map Bool → String → StoredImage → Map StoredImage × GcResult → Map StoredImage × GcResult
collect_one active tag image (images, r) =
    if is_active active image.digest
    then (images, record r { retained_images = suc r.retained_images })
    else (
      delete tag images,
      record r {
        deleted_images = suc r.deleted_images;
        reclaimed_bytes = r.reclaimed_bytes + length image.payload;
      },
    )

-- The loop: the entries at its start, and what is left of the map with the result.
unfoldable pub collect :
    Map Bool → Map StoredImage → Map StoredImage × GcResult → Map StoredImage × GcResult
collect active [] s = s
collect active ((tag, image) ∷ entries) s = collect active entries (collect_one active tag image s)

-- The cycle does not look at `available`.
unfoldable pub garbage_collect : List String → MemoryRegistry → GcResult × MemoryRegistry
garbage_collect referenced r =
    let (images, result) = collect (mark referenced) r.images (r.images, nothing_collected) in
    (result, record r { images = images })
