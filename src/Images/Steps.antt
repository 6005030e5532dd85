-- ===== src/Images/Steps.antt =====
-- The registry's operations one after the other, and what they keep.
use almichot_cloud.Prelude.{
  String, Bool, true, some, [], ◌∷◌, List, Map, lookup, insert, delete, str_eq, eq_iff,
  Option-cases, sym, ok, err, ◌≡◌, ◌≢◌, refl, ◌⊎◌, inl, inr, arith, Bool-cases, lookup-insert,
  lookup-delete, lookup-insert_cases, lookup-insert_self,
}
use almichot_cloud.Images.{
  Bytes, Error, registry_unavailable, empty_tag, MemoryRegistry, StoredImage, GcResult,
  new_registry, set_available, push, pull, compute_digest, check_expected, is_active,
  garbage_collect, collect, collect_one, mark, nothing_collected,
}
use almichot_cloud.Images.Collected.{IsMap, empty, entry, garbage_collect-keeps}

module _ {V : Type 0} where
  lookup-insert_ne :
      (k j : String) (v : V) (m : Map V) → k ≢ j → lookup j (insert k v m) ≡ lookup j m
  lookup-insert_ne k j v m ne = ground (arith, lookup-insert k j v m, eq_iff k j)

  insert-IsMap : (k : String) (v : V) (m : Map V) → IsMap m → IsMap (insert k v m)
  unfolding lookup insert
  insert-IsMap k v [] empty = entry refl empty
  insert-IsMap k v ((j, w) ∷ m) (entry new h) = elim (Bool-cases (str_eq j k)) [
    | inl b ↦ rw b (entry (ground (arith, eq_iff j k)) h)
    | inr b ↦ rw b (
        entry (ground (arith, lookup-insert k j v m, eq_iff k j, eq_iff j k))
          (insert-IsMap k v m h))
  ]

  delete-IsMap : (k : String) (m : Map V) → IsMap m → IsMap (delete k m)
  unfolding lookup delete
  delete-IsMap k [] empty = empty
  delete-IsMap k ((j, w) ∷ m) (entry new h) = elim (Bool-cases (str_eq j k)) [
    | inl b ↦ rw b (delete-IsMap k m h)
    | inr b ↦ rw b (entry (ground (arith, lookup-delete k j m)) (delete-IsMap k m h))
  ]

module _ (active : Map Bool) where
  collect_one-IsMap :
      (t : String) (x : StoredImage) (s : Map StoredImage × GcResult)
      → IsMap s.0
      → IsMap (collect_one active t x s).0
  unfolding collect_one
  collect_one-IsMap t x s h = elim (Bool-cases (is_active active x.digest)) [
    | inl b ↦ rw b h
    | inr b ↦ rw b (delete-IsMap t s.0 h)
  ]

  collect-IsMap :
      (entries : Map StoredImage) (s : Map StoredImage × GcResult)
      → IsMap s.0
      → IsMap (collect active entries s).0
  unfolding collect
  collect-IsMap [] s h = h
  collect-IsMap ((t, x) ∷ entries) s h =
      collect-IsMap entries (collect_one active t x s) (collect_one-IsMap t x s h)

module _ (sha256 : Bytes → String) where
  -- The image stands under its own tag, with the digest of its content.
  pub record IsVerified (tag : String) (image : StoredImage) : Type 0 where
    pub own_tag : image.tag ≡ tag
    pub named : tag ≢ ""
    pub own_digest : image.digest ≡ compute_digest sha256 image.payload

  pub record IsSound (r : MemoryRegistry) : Type 0 where
    pub is_map : IsMap r.images
    pub verified :
        (tag : String) (image : StoredImage)
        → lookup tag r.images ≡ some image
        → IsVerified tag image

  -- What the operations make of a new registry, whatever they answer.
  pub data Reach : MemoryRegistry → Type 0 where
    start : Reach new_registry
    pushed :
        {r : MemoryRegistry} (tag : String) (payload : Bytes) (expected : String)
        → Reach r
        → Reach (push sha256 tag payload expected r).1
    toggled : {r : MemoryRegistry} (available : Bool) → Reach r → Reach (set_available available r)
    collected :
        {r : MemoryRegistry} (referenced : List String)
        → Reach r
        → Reach (garbage_collect referenced r).1

  abbrev image_of : String → Bytes → StoredImage
  image_of tag payload = record {
    tag = tag;
    digest = compute_digest sha256 payload;
    payload = payload;
  }

  -- A push that stores the image, and one that fails.
  record IsStored (tag : String) (payload : Bytes) (expected : String) (r : MemoryRegistry)
      : Type 0 where
    reachable : r.available ≡ true
    named : tag ≢ ""
    result : push sha256 tag payload expected r ≡ (
      ok (compute_digest sha256 payload),
      record r { images = insert tag (image_of tag payload) r.images },
    )

  data IsRefused (tag : String) (payload : Bytes) (expected : String) (r : MemoryRegistry)
      : Type 0 where
    refused :
        (e : Error)
        → push sha256 tag payload expected r ≡ (err e, r)
        → IsRefused tag payload expected r

  push-cases :
      (tag : String) (payload : Bytes) (expected : String) (r : MemoryRegistry)
      → IsStored tag payload expected r ⊎ IsRefused tag payload expected r
  push-cases tag payload expected r = elim (Bool-cases r.available) [
    | inr down ↦ inr (refused registry_unavailable (unfold push in rw down refl))
    | inl up ↦ elim (Bool-cases (str_eq tag "")) [
      | inl b ↦ inr (refused empty_tag (unfold push in rw (up, b) refl))
      | inr b ↦ elim (Option-cases (check_expected expected (compute_digest sha256 payload))) [
        | inl c ↦ inl (record {
          reachable = up;
          named = λ e. ground (arith, eq_iff tag "");
          result = unfold push in rw (up, b, c) refl;
        })
        | inr (e, c) ↦ inr (refused e (unfold push in rw (up, b, c) refl))
      ]
    ]
  ]

  stored-IsSound :
      (tag : String) (payload : Bytes) (r : MemoryRegistry)
      → tag ≢ ""
      → IsSound r
      → IsSound (record r { images = insert tag (image_of tag payload) r.images })
  stored-IsSound tag payload r named s = record {
    is_map = insert-IsMap tag (image_of tag payload) r.images s.is_map;
    verified = λ other image h.
        elim (lookup-insert_cases tag other (image_of tag payload) image r.images h) [
          | inl (e, e') ↦
              rw (sym e, sym e') (record { own_tag = refl; named = named; own_digest = refl })
          | inr old ↦ s.verified other image old
        ];
  }

  push-IsSound :
      (tag : String) (payload : Bytes) (expected : String) (r : MemoryRegistry)
      → IsSound r
      → IsSound (push sha256 tag payload expected r).1
  push-IsSound tag payload expected r s = elim (push-cases tag payload expected r) [
    | inl p ↦ rw p.result (stored-IsSound tag payload r p.named s)
    | inr (refused e h) ↦ rw h s
  ]

  collected-IsSound :
      (referenced : List String) (r : MemoryRegistry)
      → IsSound r
      → IsSound (garbage_collect referenced r).1
  collected-IsSound referenced r s = record {
    is_map =
        unfold garbage_collect in
        collect-IsMap (mark referenced) r.images (r.images, nothing_collected) s.is_map;
    verified = λ tag image h.
        s.verified tag image ((((garbage_collect-keeps referenced r s.is_map).0 tag image).0 h).1);
  }

  -- Whatever pushes, collections and outages the registry has been through: each tag is there
  -- once, is not empty, leads to an image under that tag, and the image's digest is that of its
  -- content.
  pub Reach-verified : (r : MemoryRegistry) → Reach r → IsSound r
  unfolding set_available
  Reach-verified _ start = record {
    is_map = empty;
    verified = λ tag image h. absurd (unfold lookup in cc);
  }
  Reach-verified _ (pushed {r} tag payload expected h) =
      push-IsSound tag payload expected r (Reach-verified r h)
  Reach-verified _ (toggled {r} available h) =
      let s = Reach-verified r h in record { is_map = s.is_map; verified = s.verified }
  Reach-verified _ (collected {r} referenced h) =
      collected-IsSound referenced r (Reach-verified r h)

  -- A push answers with an error and leaves the registry as it was, or it answers with the digest
  -- of the content, the tag then gives the content and that digest, and every other tag what it
  -- gave before.
  pub push-pull :
      (tag : String) (payload : Bytes) (expected : String) (r : MemoryRegistry)
      → let (answer, r') = push sha256 tag payload expected r in
        ((e : Error) × (answer ≡ err e) × (r' ≡ r))
        ⊎ ((answer ≡ ok (compute_digest sha256 payload))
            × (pull tag r' ≡ ok (payload, compute_digest sha256 payload))
            × ((other : String) → tag ≢ other → pull other r' ≡ pull other r))
  push-pull tag payload expected r = elim (push-cases tag payload expected r) [
    | inr (refused e h) ↦ inl (e, rw h refl, rw h refl)
    | inl p ↦ inr (
        rw p.result (
          refl,
          unfold pull in
              rw (p.reachable, lookup-insert_self tag (image_of tag payload) r.images) refl,
          λ other ne.
              unfold pull in
              rw (lookup-insert_ne tag other (image_of tag payload) r.images ne) refl,
        ))
  ]
