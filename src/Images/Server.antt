-- ===== src/Images/Server.antt =====
-- internal/registry/server.go and gc.go: the maps of EmbeddedRegistryServer, what its handlers of
-- manifests and blobs do to them once a request is decoded, and its garbage collection.
use Prim.Native.String.{◌++◌ as append}
use text.Mathlib.Text.{starts_with}
use almichot_cloud.Prelude.{
  suc, ◌+◌, String, Bool, true, false, Option, none, some, List, [], ◌∷◌, Map, lookup, insert,
  delete, length, if◌then◌else◌, ◌≡◌, refl, ◌∙◌, ◌≢◌, arith, eq_iff, lookup-delete, lookup-insert,
  Bool-cases, inl, inr,
}
pub mod Leak
use almichot_cloud.Images.{Bytes, compute_digest, GcResult, nothing_collected, mark, is_active}

pub record EmbeddedRegistryServer : Type 0 where
  pub manifests : Map Bytes
  pub manifest_dg : Map String
  pub blobs : Map Bytes
  pub uploads : Map Bytes
  pub available : Bool

-- NewEmbeddedRegistryServer
abbrev pub new_server : EmbeddedRegistryServer
new_server = record { manifests = []; manifest_dg = []; blobs = []; uploads = []; available = true }

unfoldable pub set_available : Bool → EmbeddedRegistryServer → EmbeddedRegistryServer
set_available available s = record s { available = available }

-- repo:reference
unfoldable pub manifest_key : String → String → String
manifest_key repo reference = append repo (append ":" reference)

-- PUT of a manifest, with the digest of the answer.
unfoldable pub put_manifest :
    (Bytes → String)
    → String
    → String
    → Bytes
    → EmbeddedRegistryServer
    → String × EmbeddedRegistryServer
put_manifest sha256 repo reference body s =
    let digest = compute_digest sha256 body in
    let key = manifest_key repo reference in
    (
      digest,
      record s {
        manifests = insert (manifest_key repo digest) body (insert key body s.manifests);
        manifest_dg = insert key digest s.manifest_dg;
      },
    )

abbrev or_empty : Option String → String
or_empty none = ""
or_empty (some digest) = digest

abbrev by_digest : Bool → String → Option Bytes → Option (Bytes × String)
by_digest is_digest reference none = none
by_digest true reference (some body) = some (body, reference)
by_digest false reference (some body) = none

-- A key that is there gives its digest, "" where none is noted.
abbrev or_by_digest : Option (Bytes × String) → String → Option Bytes → Option (Bytes × String)
or_by_digest again digest none = again
or_by_digest again digest (some body) = some (body, digest)

-- GET of a manifest: the body and the digest of the answer, or 404.
unfoldable pub get_manifest : String → String → EmbeddedRegistryServer → Option (Bytes × String)
get_manifest repo reference s =
    let found = lookup (manifest_key repo reference) s.manifests in
    or_by_digest (by_digest (starts_with reference "sha256:") reference found)
      (or_empty (lookup (manifest_key repo reference) s.manifest_dg)) found

-- POST of an upload; its ID is drawn.
unfoldable pub start_upload : String → EmbeddedRegistryServer → EmbeddedRegistryServer
start_upload upload_id s = record s { uploads = insert upload_id [] s.uploads }

unfoldable pub put_blob :
    (Bytes → String) → String → Bytes → EmbeddedRegistryServer → String × EmbeddedRegistryServer
put_blob sha256 upload_id body s =
    let digest = compute_digest sha256 body in
    (digest, record s { blobs = insert digest body s.blobs; uploads = delete upload_id s.uploads })

unfoldable pub get_blob : String → EmbeddedRegistryServer → Option Bytes
get_blob digest s = lookup digest s.blobs

abbrev collect_manifest :
    Bool → String → EmbeddedRegistryServer × GcResult → EmbeddedRegistryServer × GcResult
collect_manifest true ref (s, r) = (s, record r { retained_images = suc r.retained_images })
collect_manifest false ref (s, r) = (
  record s { manifest_dg = delete ref s.manifest_dg; manifests = delete ref s.manifests },
  record r { deleted_images = suc r.deleted_images },
)

unfoldable pub collect_manifests :
    Map Bool → Map String → EmbeddedRegistryServer × GcResult → EmbeddedRegistryServer × GcResult
collect_manifests active [] p = p
collect_manifests active ((ref, dg) ∷ entries) p =
    collect_manifests active entries (collect_manifest (is_active active dg) ref p)

abbrev collect_blob :
    Bool → String → Bytes → EmbeddedRegistryServer × GcResult → EmbeddedRegistryServer × GcResult
collect_blob true dg blob p = p
collect_blob false dg blob (s, r) = (
  record s { blobs = delete dg s.blobs },
  record r {
    deleted_blobs = suc r.deleted_blobs;
    reclaimed_bytes = r.reclaimed_bytes + length blob;
  },
)

unfoldable pub collect_blobs :
    Map Bool → Map Bytes → EmbeddedRegistryServer × GcResult → EmbeddedRegistryServer × GcResult
collect_blobs active [] p = p
collect_blobs active ((dg, blob) ∷ entries) p =
    collect_blobs active entries (collect_blob (is_active active dg) dg blob p)

unfoldable pub garbage_collect :
    List String → EmbeddedRegistryServer → GcResult × EmbeddedRegistryServer
garbage_collect referenced s =
    let active = mark referenced in
    let p = collect_manifests active s.manifest_dg (s, nothing_collected) in
    let (s', r) = collect_blobs active s.blobs p in (r, s')
