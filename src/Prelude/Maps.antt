-- ===== src/Prelude/Maps.antt =====
-- A Go map with string keys as an association list. The order of the entries stands for the order
-- in which a `range` loop happens to visit them.
use Prim.Native.String.{String}
use mathlib.Core.Path.{◌≡◌}
use mathlib.Core.Logic.{◌⊎◌}
use mathlib.Core.Option.{Option, none, some}
use mathlib.Core.List.{List, [], ◌∷◌}
use native.Mathlib.Omega.{arith}
use text.Mathlib.TextEquality.{eq_iff}
use text.Mathlib.TextPositions.{eq_refl}
use almichot_cloud.Prelude.Tests.{str_eq, if◌then◌else◌}

abbrev pub Map {ℓ} : Type ℓ → Type ℓ
Map V = List (String × V)

module _ {ℓ} {V : Type ℓ} where
  -- m[k], with the `ok` of `v, ok := m[k]`
  unfoldable pub lookup : String → Map V → Option V
  lookup key [] = none
  lookup key ((a, x) ∷ rest) = if str_eq a key then some x else lookup key rest

  -- m[k] = v
  unfoldable pub insert : String → V → Map V → Map V
  insert key new [] = (key, new) ∷ []
  insert key new ((a, x) ∷ rest) =
      if str_eq a key then (key, new) ∷ rest else (a, x) ∷ insert key new rest

  -- delete(m, k)
  unfoldable pub delete : String → Map V → Map V
  delete k [] = []
  delete k ((j, w) ∷ m) = let rest = delete k m in if str_eq j k then rest else (j, w) ∷ rest

  pub lookup-insert :
      (key other : String) (new : V) (m : Map V)
      → lookup other (insert key new m) ≡ (if str_eq key other then some new else lookup other m)
  unfolding lookup insert
  lookup-insert key other new [] = ground arith
  lookup-insert key other new ((a, x) ∷ rest) =
      ground
        (arith, eq_iff a key, eq_iff a other, eq_iff key other, lookup-insert key other new rest)

  pub lookup-insert_self : (k : String) (v : V) (m : Map V) → lookup k (insert k v m) ≡ some v
  lookup-insert_self k v m = simp (lookup-insert, eq_refl)

  pub lookup-delete :
      (k j : String) (m : Map V) → lookup j (delete k m) ≡ (if str_eq k j then none else lookup j m)
  unfolding lookup delete
  lookup-delete k j [] = ground arith
  lookup-delete k j ((i, w) ∷ m) =
      ground (arith, eq_iff k j, eq_iff i k, eq_iff i j, lookup-delete k j m)

module _ {ℓ} {V : Type ℓ} where
  -- What is found after a write is the new value at its key or was there before.
  pub lookup-insert_cases :
      (k j : String) (v a : V) (m : Map V)
      → lookup j (insert k v m) ≡ some a
      → ((k ≡ j) × (v ≡ a)) ⊎ (lookup j m ≡ some a)
  lookup-insert_cases k j v a m h = ground (arith, lookup-insert k j v m, eq_iff k j)

  -- Writing what is there changes nothing.
  pub insert_same : (k : String) (v : V) (m : Map V) → lookup k m ≡ some v → insert k v m ≡ m
  unfolding lookup insert
  insert_same k v [] h = cc
  insert_same k v ((j, w) ∷ m) h = ground (arith, eq_iff j k, insert_same k v m)

  -- A write at a free key hides nothing.
  pub lookup-insert_old :
      (k j : String) (v a : V) (m : Map V)
      → lookup k m ≡ none
      → lookup j m ≡ some a
      → lookup j (insert k v m) ≡ some a
  lookup-insert_old k j v a m free h = ground (arith, lookup-insert k j v m, eq_iff k j)

pub ruleset map_laws = (lookup-insert, lookup-insert_self, lookup-delete)
