-- ===== src/Images/Policy/Cycle.antt =====
-- A cycle of GCPolicy with the provider and the registry in memory.
use almichot_cloud.Prelude.{
  String, Bool, true, some, [], ◌∷◌, Map, lookup, str_eq, eq_iff, ok, err, Result, is_some, ◌≡◌,
  ◌↔◌, ◌≢◌, refl, sym, inl, inr, arith, Bool-cases, In, here, there, lookup-insert, lookup-delete,
  Option-cases,
}
use almichot_cloud.Images.{Bytes, Error, MemoryRegistry, StoredImage, pull, garbage_collect}
use almichot_cloud.Images.Collected.{garbage_collect-keeps}
use almichot_cloud.Images.Steps.{Reach, Reach-verified}
use almichot_cloud.Images.Policy.{
  PolicyError, GcPolicyResult, add_digest, remove_digest, get_referenced_digests,
  select_candidates_and_run, memory_executor,
}

referenced-In :
    (d : String) (digests : Map Bool)
    → is_some (lookup d digests) ≡ true
    → In d (get_referenced_digests digests)
unfolding lookup get_referenced_digests
referenced-In d [] h = absurd (ground arith)
referenced-In d ((x, b) ∷ digests) h = elim (Bool-cases (str_eq x d)) [
  | inl e ↦ here (sym ((eq_iff x d).0 e))
  | inr e ↦ there (referenced-In d digests (rw e at h))
]

In-referenced :
    (d : String) (digests : Map Bool)
    → In d (get_referenced_digests digests)
    → is_some (lookup d digests) ≡ true
unfolding lookup get_referenced_digests
In-referenced d [] h = elim h [ ]
In-referenced d ((x, b) ∷ digests) (here e) = ground (arith, eq_iff x d)
In-referenced d ((x, b) ∷ digests) (there t) = ground (arith, In-referenced d digests t)

added : (d : String) (digests : Map Bool) → is_some (lookup d (add_digest d digests)) ≡ true
unfolding add_digest
added d digests = ground (arith, lookup-insert d d true digests, eq_iff d d)

removed : (d : String) (digests : Map Bool) → is_some (lookup d (remove_digest d digests)) ≢ true
unfolding remove_digest
removed d digests h = ground (arith, lookup-delete d d digests, eq_iff d d)

-- What a tag needs for Pull to give the content and the digest.
record IsHeld (tag : String) (content : Bytes) (d : String) (r : MemoryRegistry) : Type 0 where
  up : r.available ≡ true
  image : StoredImage
  held : lookup tag r.images ≡ some image
  own_content : image.payload ≡ content
  own_digest : image.digest ≡ d

abbrev answer_of : StoredImage → Result Error (Bytes × String)
answer_of image = ok (image.payload, image.digest)

pull-IsHeld :
    (tag : String) (content : Bytes) (d : String) (r : MemoryRegistry)
    → pull tag r ≡ ok (content, d)
    → IsHeld tag content d r
unfolding pull
pull-IsHeld tag content d r h = elim (Bool-cases r.available) [
  | inr down ↦ absurd (failed _ _ (rw down at h) refl)
  | inl up ↦ elim (Option-cases (lookup tag r.images)) [
    | inl e ↦ absurd (failed _ _ (rw (up, e) at h) refl)
    | inr (image, e) ↦
        let (c, g) = taken image (rw (up, e) at h) in
        record { up = up; image = image; held = e; own_content = c; own_digest = g }
  ]
]
  where
    taken :
        (image : StoredImage)
        → answer_of image ≡ ok (content, d)
        → (image.payload ≡ content) × (image.digest ≡ d)
    taken image same = (cc, cc)

    failed : (e : Error) (x : Bytes × String) → err e ≡ ok x → e ≢ e
    failed e x h = cc

IsHeld-pull :
    (tag : String) (content : Bytes) (d : String) (r : MemoryRegistry)
    → IsHeld tag content d r
    → pull tag r ≡ ok (content, d)
unfolding pull
IsHeld-pull tag content d r h = rw (h.up, h.held, h.own_content, h.own_digest) refl

-- One cycle of GCPolicy over a provider and a registry that are in memory.
abbrev pub cycle_in_memory :
    Map Bool → MemoryRegistry → Result (PolicyError Error) GcPolicyResult × MemoryRegistry
cycle_in_memory digests r =
    select_candidates_and_run (some (ok (get_referenced_digests digests))) (some memory_executor) r

module _ (sha256 : Bytes → String) (digests : Map Bool) (r : MemoryRegistry)
    (reached : Reach sha256 r) where
  -- In a registry that its operations made, a digest that was added to the provider is safe: every
  -- tag with it gives after the cycle what it gave before. A digest that was removed from
  -- the provider is gone: no tag has it after the cycle.
  pub cycle-Keeps :
      (d : String)
      → ((tag : String) (content : Bytes)
          → pull tag r ≡ ok (content, d)
          → pull tag (cycle_in_memory (add_digest d digests) r).1 ≡ ok (content, d))
        × ((tag : String) (content : Bytes)
            → pull tag (cycle_in_memory (remove_digest d digests) r).1 ≢ ok (content, d))
  cycle-Keeps d = (
    λ tag content h.
        let p = pull-IsHeld tag content d r h in
        IsHeld-pull tag content d _ (record {
          up = unfold garbage_collect select_candidates_and_run in p.up;
          image = p.image;
          held =
              unfold select_candidates_and_run in
              ((kept (add_digest d digests) tag p.image).1 (
                rw p.own_digest (referenced-In d (add_digest d digests) (added d digests)),
                p.held,
              ));
          own_content = p.own_content;
          own_digest = p.own_digest;
        }),
    λ tag content h.
        let p = pull-IsHeld tag content d _ h in
        removed d digests (
          In-referenced d (remove_digest d digests) (
            rw p.own_digest at (
              ((kept (remove_digest d digests) tag p.image).0
                (unfold select_candidates_and_run in p.held)).0))),
  )
    where
      kept :
          (ds : Map Bool) (tag : String) (image : StoredImage)
          → (lookup tag (garbage_collect (get_referenced_digests ds) r).1.images ≡ some image)
            ↔ (In image.digest (get_referenced_digests ds) × (lookup tag r.images ≡ some image))
      kept ds =
          (garbage_collect-keeps (get_referenced_digests ds) r
            (Reach-verified sha256 r reached).is_map).0
