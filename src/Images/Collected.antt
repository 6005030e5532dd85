-- ===== src/Images/Collected.antt =====
-- What a garbage collection leaves of a registry.
use almichot_cloud.Prelude.{
  String, Bool, true, false, Option, none, some, List, [], ◌∷◌, Map, lookup, length, str_eq, eq_iff,
  if◌then◌else◌, ◌≡◌, ◌↔◌, ◌≢◌, refl, sym, ◌∙◌, ◌+◌, inl, inr, arith, In, here, there, Bool-cases,
  lookup-delete, lookup-insert, Option-cases,
}
use almichot_cloud.Images.{
  StoredImage, GcResult, mark, is_active, collect_one, collect, garbage_collect, MemoryRegistry,
  nothing_collected,
}

-- Each key stands once, as in a Go map.
pub data IsMap {V : Type 0} : Map V → Type 0 where
  empty : IsMap []
  entry : {k : String} {v : V} {m : Map V} → lookup k m ≡ none → IsMap m → IsMap ((k, v) ∷ m)

mark_lem : (ds : List String) (d : String) → In d ds → is_active (mark ds) d ≡ true
unfolding mark is_active
mark_lem [] d h = elim h [ ]
mark_lem (x ∷ ds) d (here e) = ground (arith, lookup-insert x d true (mark ds), eq_iff x d)
mark_lem (x ∷ ds) d (there t) =
    ground (arith, lookup-insert x d true (mark ds), eq_iff x d, mark_lem ds d t)

mark-In : (ds : List String) (d : String) → is_active (mark ds) d ≡ true → In d ds
unfolding mark is_active lookup
mark-In [] d h = absurd cc
mark-In (x ∷ ds) d h = elim (Bool-cases (str_eq x d)) [
  | inl b ↦ here (sym ((eq_iff x d).0 b))
  | inr b ↦ there (mark-In ds d (ground (arith, lookup-insert x d true (mark ds))))
]

module _ (active : Map Bool) where
  abbrev pub kept : Option StoredImage → Option StoredImage
  kept none = none
  kept (some image) = if is_active active image.digest then some image else none

  collect_one-lookup :
      (t tag : String) (image : StoredImage) (s : Map StoredImage × GcResult)
      → str_eq t tag ≡ false
      → lookup tag (collect_one active t image s).0 ≡ lookup tag s.0
  unfolding collect_one
  collect_one-lookup t tag image s h = ground (arith, lookup-delete t tag s.0)

  collect_one-kept :
      (tag : String) (image : StoredImage) (s : Map StoredImage × GcResult)
      → lookup tag s.0 ≡ some image
      → lookup tag (collect_one active tag image s).0 ≡ kept (some image)
  unfolding collect_one
  collect_one-kept tag image s h = ground (arith, lookup-delete tag tag s.0, eq_iff tag tag)

  collect-absent :
      (entries : Map StoredImage) (tag : String) (s : Map StoredImage × GcResult)
      → lookup tag entries ≡ none
      → lookup tag (collect active entries s).0 ≡ lookup tag s.0
  unfolding collect lookup
  collect-absent [] tag s h = refl
  collect-absent ((t, image) ∷ entries) tag s h = elim (Bool-cases (str_eq t tag)) [
    | inl b ↦ absurd (ground arith)
    | inr b ↦
        collect-absent entries tag (collect_one active t image s) (rw b at h)
        ∙ collect_one-lookup t tag image s b
  ]

  collect-first :
      (entries : Map StoredImage) (t tag : String) (x image : StoredImage)
      (s : Map StoredImage × GcResult)
      → t ≡ tag
      → x ≡ image
      → lookup t entries ≡ none
      → lookup tag s.0 ≡ some image
      → lookup tag (collect active entries (collect_one active t x s)).0 ≡ kept (some image)
  collect-first entries t tag x image s e e' new held =
      rw (e, e')
        (collect-absent entries tag (collect_one active tag image s) (rw e at new)
          ∙ collect_one-kept tag image s held)

  collect-kept :
      (entries : Map StoredImage) (tag : String) (image : StoredImage)
      (s : Map StoredImage × GcResult)
      → IsMap entries
      → lookup tag entries ≡ some image
      → lookup tag s.0 ≡ some image
      → lookup tag (collect active entries s).0 ≡ kept (some image)
  unfolding collect lookup
  collect-kept [] tag image s m h held = cc
  collect-kept ((t, x) ∷ entries) tag image s (entry new m) h held =
      elim (Bool-cases (str_eq t tag)) [
        | inl b ↦ collect-first entries t tag x image s ((eq_iff t tag).0 b) (ground arith) new held
        | inr b ↦
            collect-kept entries tag image (collect_one active t x s) m (rw b at h)
              (collect_one-lookup t tag x s b ∙ held)
      ]

  -- Each entry is counted once.
  collect-count :
      (entries : Map StoredImage) (s : Map StoredImage × GcResult)
      → let r = (collect active entries s).1 in
        r.deleted_images + r.retained_images
        ≡ length entries + (s.1.deleted_images + s.1.retained_images)
  unfolding collect collect_one
  collect-count [] s = omega arith
  collect-count ((t, x) ∷ entries) s =
      ground (arith, collect-count entries (collect_one active t x s))

kept-some :
    (active : Map Bool) (o : Option StoredImage) (image : StoredImage)
    → kept active o ≡ some image
    → (is_active active image.digest ≡ true) × (o ≡ some image)
kept-some active none image h = absurd cc
kept-some active (some x) image h = elim (Bool-cases (is_active active x.digest)) [
  | inl b ↦ taken b (rw b at h)
  | inr b ↦ absurd (none-some (rw b at h) refl)
]
  where
    taken :
        is_active active x.digest ≡ true
        → some x ≡ some image
        → (is_active active image.digest ≡ true) × (some x ≡ some image)
    taken b same = let e : x ≡ image = cc in (rw e at b, same)

    none-some : none ≡ some image → image.digest ≢ image.digest
    none-some e = cc

module _ (referenced : List String) (r : MemoryRegistry) (m : IsMap r.images) where
  garbage_collect-lookup :
      (tag : String)
      → lookup tag (garbage_collect referenced r).1.images
        ≡ kept (mark referenced) (lookup tag r.images)
  unfolding garbage_collect
  garbage_collect-lookup tag = elim (Option-cases (lookup tag r.images)) [
    | inl e ↦
        collect-absent (mark referenced) r.images tag (r.images, nothing_collected) e ∙ rw e refl
    | inr (image, e) ↦
        rw e (collect-kept (mark referenced) r.images tag image (r.images, nothing_collected) m e e)
  ]

  -- Where the registry is a map with each tag once, a cycle keeps every image whose digest is
  -- referenced as it is, removes every other one and adds none, and counts each image once, as
  -- deleted or as retained.
  pub garbage_collect-keeps :
      let (result, r') = garbage_collect referenced r in
      ((tag : String) (image : StoredImage)
        → (lookup tag r'.images ≡ some image)
          ↔ (In image.digest referenced × (lookup tag r.images ≡ some image)))
      × (result.deleted_images + result.retained_images ≡ length r.images)
  unfolding garbage_collect
  garbage_collect-keeps = (
    λ tag image. (
      λ h.
          let (active, held) =
            kept-some (mark referenced) (lookup tag r.images) image
              (sym (garbage_collect-lookup tag) ∙ h) in
          (mark-In referenced image.digest active, held),
      λ (d, held). garbage_collect-lookup tag ∙ rw (held, mark_lem referenced image.digest d) refl,
    ),
    omega (arith, collect-count (mark referenced) r.images (r.images, nothing_collected)),
  )
