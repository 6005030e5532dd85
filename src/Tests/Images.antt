-- ===== src/Tests/Images.antt =====
-- The image registry, with the length in place of the hash.
use almichot_cloud.Prelude.{
  String, true, false, some, [], ◌∷◌, ok, err, ◌≡◌, ◌≢◌, ◌↔◌, ◌⊎◌, ◌+◌, refl, length, lookup,
  insert, delete, In, decimal, pos, eq_iff, arith, to_lower, trim_space,
}
use almichot_cloud.Images.{
  Bytes, Error, digest_mismatch, empty_tag, registry_unavailable, StoredImage, MemoryRegistry,
  new_registry, push, pull, verify_digest, compute_digest, garbage_collect, mark, is_active,
  collect, collect_one, set_available, has_image, get_digest,
}
use almichot_cloud.Images.Collected.{garbage_collect-keeps}
use almichot_cloud.Images.Steps.{Reach, IsSound, start, pushed, Reach-verified, push-pull}
use almichot_cloud.Images.Policy.{add_digest, remove_digest, new_provider}
use almichot_cloud.Images.Policy.Cycle.{cycle_in_memory, cycle-Keeps}
use almichot_cloud.Images.Server.{new_server, manifest_key, put_manifest, get_manifest}
use almichot_cloud.Images.Server as Server
use almichot_cloud.Images.Server.Leak.{put_manifest-leaks}

abbrev size_hash : Bytes → String
size_hash payload = decimal (pos (length payload))

abbrev two_images : MemoryRegistry
two_images =
    (push size_hash "app:v2" (7 ∷ 7 ∷ []) " SHA256:2 "
      (push size_hash "app:v1" (7 ∷ []) "" new_registry).1).1

two_images-Reach : Reach size_hash two_images
two_images-Reach = pushed "app:v2" (7 ∷ 7 ∷ []) " SHA256:2 " (pushed "app:v1" (7 ∷ []) "" start)

pushes :
    (pull "app:v2" two_images ≡ ok (7 ∷ 7 ∷ [], "sha256:2"))
    × ((push size_hash "app:v3" [] "sha256:1" two_images).0 ≡ err digest_mismatch)
    × ((push size_hash "" [] "" two_images).0 ≡ err empty_tag)
    × ((push size_hash "app:v3" [] "" (set_available false two_images)).0
        ≡ err registry_unavailable)
unfolding push pull verify_digest compute_digest trim_space to_lower decimal lookup insert
    set_available
pushes = (refl, refl, refl, refl)

Reach-verified_example : IsSound size_hash two_images
Reach-verified_example = Reach-verified size_hash two_images two_images-Reach

push-pull_example :
    let (answer, r') = push size_hash "app:v1" (7 ∷ 7 ∷ []) "sha256:2" two_images in
    ((e : Error) × (answer ≡ err e) × (r' ≡ two_images))
    ⊎ ((answer ≡ ok (compute_digest size_hash (7 ∷ 7 ∷ [])))
        × (pull "app:v1" r' ≡ ok (7 ∷ 7 ∷ [], compute_digest size_hash (7 ∷ 7 ∷ [])))
        × ((other : String) → "app:v1" ≢ other → pull other r' ≡ pull other two_images))
push-pull_example = push-pull size_hash "app:v1" (7 ∷ 7 ∷ []) "sha256:2" two_images

garbage_collect-keeps_example :
    let (result, r') = garbage_collect ("sha256:2" ∷ []) two_images in
    ((tag : String) (image : StoredImage)
      → (lookup tag r'.images ≡ some image)
        ↔ (In image.digest ("sha256:2" ∷ []) × (lookup tag two_images.images ≡ some image)))
    × (result.deleted_images + result.retained_images ≡ length two_images.images)
garbage_collect-keeps_example =
    garbage_collect-keeps ("sha256:2" ∷ []) two_images Reach-verified_example.is_map

cycle-Keeps_example :
    ((tag : String) (content : Bytes)
      → pull tag two_images ≡ ok (content, "sha256:1")
      → pull tag
          (cycle_in_memory (add_digest "sha256:1" (new_provider ("sha256:2" ∷ []))) two_images).1
        ≡ ok (content, "sha256:1"))
    × ((tag : String) (content : Bytes)
        → pull tag
            (cycle_in_memory
              (remove_digest "sha256:1" (new_provider ("sha256:2" ∷ [])))
              two_images).1
          ≢ ok (content, "sha256:1"))
cycle-Keeps_example =
    cycle-Keeps size_hash (new_provider ("sha256:2" ∷ [])) two_images two_images-Reach "sha256:1"

-- A cycle that needs one of two images, in a registry that is down.
collects :
    let (result, r) = garbage_collect ("sha256:2" ∷ []) (set_available false two_images) in
    (result.deleted_images ≡ 1)
    × (result.reclaimed_bytes ≡ 1)
    × (has_image "app:v2" (set_available true r) ≡ true)
    × (get_digest "app:v1" r ≡ err registry_unavailable)
unfolding push verify_digest compute_digest trim_space to_lower decimal lookup insert set_available
    garbage_collect collect collect_one mark is_active has_image get_digest delete
collects = (refl, refl, refl, refl)

other_key : manifest_key "shop" (compute_digest size_hash (7 ∷ [])) ≢ manifest_key "shop" "v1"
unfolding manifest_key compute_digest decimal
other_key e = ground (arith, eq_iff "shop:sha256:1" "shop:v1")

put_manifest-leaks_example :
    let (digest, s') = put_manifest size_hash "shop" "v1" (7 ∷ []) new_server in
    (get_manifest "shop" "v1" s' ≡ some (7 ∷ [], digest))
    × (get_manifest "shop" digest s' ≡ some (7 ∷ [], ""))
    × (get_manifest "shop" digest (Server.garbage_collect [] s').1 ≡ some (7 ∷ [], ""))
put_manifest-leaks_example =
    put_manifest-leaks size_hash "shop" "v1" (7 ∷ []) new_server [] other_key
      (unfold lookup in refl)
