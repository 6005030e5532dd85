-- ===== src/Images/Server/Leak.antt =====
-- What EmbeddedRegistryServer keeps of a manifest under its digest.
use almichot_cloud.Prelude.{
  String, Bool, true, false, none, some, List, [], ◌∷◌, Map, lookup, insert, str_eq, ◌≡◌, refl, sym,
  ◌∙◌, ◌≢◌, arith, eq_iff, lookup-delete, lookup-insert, lookup-insert_self, Bool-cases, inl, inr,
}
use almichot_cloud.Images.{Bytes, compute_digest, GcResult, nothing_collected, mark, is_active}
use almichot_cloud.Images.Server.{
  EmbeddedRegistryServer, manifest_key, put_manifest, get_manifest, collect_manifest,
  collect_manifests, collect_blob, collect_blobs, garbage_collect,
}

-- Both maps have the same under the key.
record IsAlike (k : String) (s s' : EmbeddedRegistryServer) : Type 0 where
  body : lookup k s'.manifests ≡ lookup k s.manifests
  noted : lookup k s'.manifest_dg ≡ lookup k s.manifest_dg

collect_manifest-IsAlike :
    (b : Bool) (ref k : String) (p : EmbeddedRegistryServer × GcResult)
    → ref ≢ k
    → IsAlike k p.0 (collect_manifest b ref p).0
collect_manifest-IsAlike true ref k p ne = record { body = refl; noted = refl }
collect_manifest-IsAlike false ref k (s, r) ne = record {
  body = ground (arith, lookup-delete ref k s.manifests, eq_iff ref k);
  noted = ground (arith, lookup-delete ref k s.manifest_dg, eq_iff ref k);
}

module _ (active : Map Bool) where
  collect_manifests-IsAlike :
      (entries : Map String) (k : String) (p : EmbeddedRegistryServer × GcResult)
      → lookup k entries ≡ none
      → IsAlike k p.0 (collect_manifests active entries p).0
  unfolding collect_manifests lookup
  collect_manifests-IsAlike [] k p h = record { body = refl; noted = refl }
  collect_manifests-IsAlike ((ref, dg) ∷ entries) k p h = elim (Bool-cases (str_eq ref k)) [
    | inl b ↦ absurd (ground arith)
    | inr b ↦
        let one =
          collect_manifest-IsAlike (is_active active dg) ref k p
            (λ e. ground (arith, eq_iff ref k)) in
        let rest =
          collect_manifests-IsAlike entries k (collect_manifest (is_active active dg) ref p)
            (rw b at h) in
        record { body = rest.body ∙ one.body; noted = rest.noted ∙ one.noted }
  ]

  collect_blobs-IsAlike :
      (entries : Map Bytes) (k : String) (p : EmbeddedRegistryServer × GcResult)
      → IsAlike k p.0 (collect_blobs active entries p).0
  unfolding collect_blobs
  collect_blobs-IsAlike [] k p = record { body = refl; noted = refl }
  collect_blobs-IsAlike ((dg, blob) ∷ entries) k p =
      let rest = collect_blobs-IsAlike entries k (collect_blob (is_active active dg) dg blob p) in
      let (c, d) = same (is_active active dg) p in
      record { body = rest.body ∙ c; noted = rest.noted ∙ d }
    where
      same :
          (b : Bool) (p : EmbeddedRegistryServer × GcResult)
          → (lookup k (collect_blob b dg blob p).0.manifests ≡ lookup k p.0.manifests)
            × (lookup k (collect_blob b dg blob p).0.manifest_dg ≡ lookup k p.0.manifest_dg)
      same true p = (refl, refl)
      same false p = (refl, refl)

garbage_collect-IsAlike :
    (referenced : List String) (k : String) (s : EmbeddedRegistryServer)
    → lookup k s.manifest_dg ≡ none
    → IsAlike k s (garbage_collect referenced s).1
unfolding garbage_collect
garbage_collect-IsAlike referenced k s h =
    let manifests =
      collect_manifests-IsAlike (mark referenced) s.manifest_dg k (s, nothing_collected) h in
    let blobs =
      collect_blobs-IsAlike (mark referenced) s.blobs k
        (collect_manifests (mark referenced) s.manifest_dg (s, nothing_collected)) in
    record { body = blobs.body ∙ manifests.body; noted = blobs.noted ∙ manifests.noted }

get_manifest-noted :
    (repo reference d : String) (body : Bytes) (s : EmbeddedRegistryServer)
    → lookup (manifest_key repo reference) s.manifests ≡ some body
    → lookup (manifest_key repo reference) s.manifest_dg ≡ some d
    → get_manifest repo reference s ≡ some (body, d)
unfolding get_manifest
get_manifest-noted repo reference d body s h n = rw (h, n) refl

get_manifest-bare :
    (repo reference : String) (body : Bytes) (s : EmbeddedRegistryServer)
    → lookup (manifest_key repo reference) s.manifests ≡ some body
    → lookup (manifest_key repo reference) s.manifest_dg ≡ none
    → get_manifest repo reference s ≡ some (body, "")
unfolding get_manifest
get_manifest-bare repo reference body s h n = rw (h, n) refl

module _ {V : Type 0} (k j : String) (v : V) (m : Map V) (ne : k ≢ j) where
  insert-other : lookup j (insert k v m) ≡ lookup j m
  insert-other = ground (arith, lookup-insert k j v m, eq_iff k j)

-- A manifest is put under a reference that is not its digest, in a server that has noted no
-- digest under the key of the manifest's digest. The reference then gives the body and its digest.
-- The digest gives the body with the empty digest, and it still does so after a collection,
-- whatever is referenced.
pub put_manifest-leaks :
    (sha256 : Bytes → String) (repo reference : String) (body : Bytes) (s : EmbeddedRegistryServer)
    (referenced : List String)
    → manifest_key repo (compute_digest sha256 body) ≢ manifest_key repo reference
    → lookup (manifest_key repo (compute_digest sha256 body)) s.manifest_dg ≡ none
    → let (digest, s') = put_manifest sha256 repo reference body s in
      (get_manifest repo reference s' ≡ some (body, digest))
      × (get_manifest repo digest s' ≡ some (body, ""))
      × (get_manifest repo digest (garbage_collect referenced s').1 ≡ some (body, ""))
unfolding put_manifest
put_manifest-leaks sha256 repo reference body s referenced ne free =
    let digest = compute_digest sha256 body in
    let copy = manifest_key repo digest in
    let key = manifest_key repo reference in
    let s' = (put_manifest sha256 repo reference body s).1 in
    let held = lookup-insert_self copy body (insert key body s.manifests) in
    let bare = insert-other key copy digest s.manifest_dg (λ e. ne (sym e)) ∙ free in
    let after = garbage_collect-IsAlike referenced copy s' bare in
    (
      get_manifest-noted repo reference digest body s'
          (insert-other copy key body (insert key body s.manifests) ne
            ∙ lookup-insert_self key body s.manifests)
          (lookup-insert_self key digest s.manifest_dg),
      get_manifest-bare repo digest body s' held bare,
      get_manifest-bare repo digest body (garbage_collect referenced s').1 (after.body ∙ held)
          (after.noted ∙ bare),
    )
