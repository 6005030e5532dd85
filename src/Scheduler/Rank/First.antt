-- ===== src/Scheduler/Rank/First.antt =====
-- internal/scheduler/rank.go: what stands first in the ranking.
use almichot_cloud.Prelude.{
  ℤ, ◌≡◌, ◌≤ℤ◌, Bool, true, false, List, [], ◌∷◌, Map, In, here, there, ◌⊎◌, inl, inr, ◌↔◌, arith,
  Bool-cases, refl, if◌then◌else◌,
}
use almichot_cloud.Workers.Model.{Worker}
use almichot_cloud.Scheduler.Rank.{Floats, all, sink, sort_into, instance_count, preferred, rank}

module _ {ℓ} {A : Type ℓ} where
  In-branch :
      (b : Bool) {x : A} {xs ys zs : List A}
      → (In x xs → In x zs)
      → (In x ys → In x zs)
      → In x (if b then xs else ys)
      → In x zs
  In-branch true f g h = f h
  In-branch false f g h = g h

  branch-In : (b : Bool) {x : A} {xs ys : List A} → In x xs → In x ys → In x (if b then xs else ys)
  branch-In true f g = f
  branch-In false f g = g

  -- Nothing is lost or made up by an insertion.
  In-sink : (less : A → A → Bool) (x y : A) (ys : List A) → In x (sink less y ys) → In x (y ∷ ys)
  unfolding sink
  In-sink less x y [] h = h
  In-sink less x y (z ∷ zs) h =
      In-branch (all (less y) (z ∷ zs)) (λ i. i) (λ i. swapped (In-sink less x y zs) i) h
    where
      swapped :
          (In x (sink less y zs) → In x (y ∷ zs)) → In x (z ∷ sink less y zs) → In x (y ∷ z ∷ zs)
      swapped ih (here e) = there (here e)
      swapped ih (there t) = elim (ih t) [ here e ↦ here e | there t' ↦ there (there t') ]

  sink-In : (less : A → A → Bool) (x y : A) (ys : List A) → In x (y ∷ ys) → In x (sink less y ys)
  unfolding sink
  sink-In less x y [] h = h
  sink-In less x y (z ∷ zs) h =
      branch-In (all (less y) (z ∷ zs)) h (swapped (sink-In less x y zs) h)
    where
      swapped :
          (In x (y ∷ zs) → In x (sink less y zs)) → In x (y ∷ z ∷ zs) → In x (z ∷ sink less y zs)
      swapped ih (here e) = there (ih (here e))
      swapped ih (there (here e)) = here e
      swapped ih (there (there t)) = there (ih (there t))

  In-sort_into :
      (less : A → A → Bool) (x : A) (xs out : List A)
      → In x (sort_into less xs out)
      → In x xs ⊎ In x out
  unfolding sort_into
  In-sort_into less x [] out h = inr h
  In-sort_into less x (y ∷ ys) out h = elim (In-sort_into less x ys (sink less y out) h) [
    | inl a ↦ inl (there a)
    | inr b ↦ elim (In-sink less x y out b) [ here e ↦ inl (here e) | there t ↦ inr t ]
  ]

  sort_into-In :
      (less : A → A → Bool) (x : A) (xs out : List A)
      → In x xs ⊎ In x out
      → In x (sort_into less xs out)
  unfolding sort_into
  sort_into-In less x [] out (inl h) = elim h [ ]
  sort_into-In less x [] out (inr h) = h
  sort_into-In less x (y ∷ ys) out (inl (here e)) =
      sort_into-In less x ys (sink less y out) (inr (sink-In less x y out (here e)))
  sort_into-In less x (y ∷ ys) out (inl (there t)) =
      sort_into-In less x ys (sink less y out) (inl t)
  sort_into-In less x (y ∷ ys) out (inr h) =
      sort_into-In less x ys (sink less y out) (inr (sink-In less x y out (there h)))

module _ {ℓ} {A : Type ℓ} (key : A → ℤ) where
  -- The comparison never contradicts the order of the keys.
  pub record Respects (less : A → A → Bool) : Type ℓ where
    pub holds : (x y : A) → less x y ≡ true → key x ≤ℤ key y
    pub fails : (x y : A) → less x y ≡ false → key y ≤ℤ key x

  -- The first element has the least key.
  data FirstLeast : List A → Type ℓ where
    none_first : FirstLeast []
    first : {x : A} {xs : List A} → ((z : A) → In z (x ∷ xs) → key x ≤ℤ key z) → FirstLeast (x ∷ xs)

  all-least :
      (less : A → A → Bool) (x : A) (ys : List A)
      → Respects less
      → all (less x) ys ≡ true
      → (z : A) → In z ys
      → key x ≤ℤ key z
  all-least less x [] r h z i = elim i [ ]
  all-least less x (y ∷ ys) r h z (here e) = rw e (r.holds x y (ground arith))
  all-least less x (y ∷ ys) r h z (there t) = all-least less x ys r (ground arith) z t

  -- Where some element does not follow `x`, the least one is below `x`.
  not_all-above :
      (less : A → A → Bool) (x y : A) (ys : List A)
      → Respects less
      → ((z : A) → In z ys → key y ≤ℤ key z)
      → all (less x) ys ≡ false
      → key y ≤ℤ key x
  not_all-above less x y [] r least h = cc
  not_all-above less x y (z ∷ zs) r least h = elim (Bool-cases (less x z)) [
    | inl e ↦ not_all-above less x y zs r (λ v i. least v (there i)) (ground arith)
    | inr e ↦ omega (arith, least z (here refl), r.fails x z e)
  ]

  least_cons :
      (a x : A) (ys : List A)
      → key a ≤ℤ key x
      → ((z : A) → In z ys → key a ≤ℤ key z)
      → (z : A) → In z (x ∷ ys)
      → key a ≤ℤ key z
  least_cons a x ys h least z (here e) = rw e h
  least_cons a x ys h least z (there t) = least z t

  FirstLeast-sink :
      (less : A → A → Bool) (x : A) (ys : List A)
      → Respects less
      → FirstLeast ys
      → FirstLeast (sink less x ys)
  unfolding sink
  FirstLeast-sink less x [] r none_first =
      first (least_cons x x [] (omega arith) (λ z i. elim i [ ]))
  FirstLeast-sink less x (y ∷ ys) r (first least) = elim (Bool-cases (all (less x) (y ∷ ys))) [
    | inl e ↦ rw e (first (least_cons x x (y ∷ ys) (omega arith) (all-least less x (y ∷ ys) r e)))
    | inr e ↦ rw e (
        first (
          least_cons y y (sink less x ys) (omega arith) (λ z i.
            least_cons y x ys (not_all-above less x y (y ∷ ys) r least e) (λ v j. least v (there j))
              z (In-sink less z x ys i))))
  ]

  FirstLeast-sort_into :
      (less : A → A → Bool) (xs out : List A)
      → Respects less
      → FirstLeast out
      → FirstLeast (sort_into less xs out)
  unfolding sort_into
  FirstLeast-sort_into less [] out r f = f
  FirstLeast-sort_into less (x ∷ xs) out r f =
      FirstLeast-sort_into less xs (sink less x out) r (FirstLeast-sink less x out r f)

module _ (f : Floats) where
  preferred-Respects : (counts : Map ℤ) → Respects (instance_count counts) (preferred f counts)
  unfolding preferred
  preferred-Respects counts = record {
    holds = λ x y h. ground arith;
    fails = λ x y h. ground arith;
  }

  -- A ranking holds the feasible workers and no other.
  pub In-rank : (ws : List Worker) (counts : Map ℤ) (w : Worker) → In w (rank f ws counts) ↔ In w ws
  unfolding rank
  In-rank [] counts w = (λ i. i, λ i. i)
  In-rank (v ∷ []) counts w = (λ i. i, λ i. i)
  In-rank (u ∷ v ∷ ws) counts w = (
    λ i. elim (In-sort_into (preferred f counts) w (u ∷ v ∷ ws) [] i) [
      | inl a ↦ a
      | inr b ↦ elim b [ ]
    ],
    λ i. sort_into-In (preferred f counts) w (u ∷ v ∷ ws) [] (inl i),
  )

  rank-FirstLeast :
      (ws : List Worker) (counts : Map ℤ) → FirstLeast (instance_count counts) (rank f ws counts)
  unfolding rank
  rank-FirstLeast [] counts = none_first
  rank-FirstLeast (v ∷ []) counts =
      first (least_cons (instance_count counts) v v [] (omega arith) (λ z i. elim i [ ]))
  rank-FirstLeast (u ∷ v ∷ ws) counts =
      FirstLeast-sort_into (instance_count counts) (preferred f counts) (u ∷ v ∷ ws) []
        (preferred-Respects counts) none_first

  first_is_least :
      {xs : List Worker} (counts : Map ℤ) (w : Worker) (ws : List Worker)
      → FirstLeast (instance_count counts) xs
      → xs ≡ w ∷ ws
      → (v : Worker) → In v xs
      → instance_count counts w ≤ℤ instance_count counts v
  first_is_least counts w ws none_first e v i = cc
  first_is_least counts w ws (first {x = x} least) e v i =
      let o : x ≡ w = cc in rw (← o) (least v i)

  -- The first worker of a ranking has the fewest instances of the deployment, whatever the floats
  -- of the utilizations.
  pub rank-least :
      (ws : List Worker) (counts : Map ℤ) (w : Worker) (rest : List Worker)
      → rank f ws counts ≡ w ∷ rest
      → (v : Worker) → In v ws
      → instance_count counts w ≤ℤ instance_count counts v
  rank-least ws counts w rest e v i =
      first_is_least counts w rest (rank-FirstLeast ws counts) e v ((In-rank ws counts v).1 i)
