-- ===== src/Images/Policy.antt =====
-- internal/registry/gc_policy.go: the provider in memory and the cycle of GCPolicy. A provider is
-- what its one call answers, an executor is its call on its own state; nil is `none`.
use almichot_cloud.Prelude.{
  ℕ, String, Bool, true, Option, none, some, List, [], ◌∷◌, Map, insert, delete, length, Result, ok,
  err,
}
use almichot_cloud.Images.{GcResult, mark, MemoryRegistry, garbage_collect}
pub mod Cycle

-- NewMemoryDigestProvider
abbrev pub new_provider : List String → Map Bool
new_provider digests = mark digests

unfoldable pub add_digest : String → Map Bool → Map Bool
add_digest d digests = insert d true digests

unfoldable pub remove_digest : String → Map Bool → Map Bool
remove_digest d digests = delete d digests

unfoldable pub get_referenced_digests : Map Bool → List String
get_referenced_digests [] = []
get_referenced_digests ((d, b) ∷ digests) = d ∷ get_referenced_digests digests

pub record GcPolicyResult : Type 0 where
  pub referenced_count : ℕ
  pub total_registry_images : ℕ
  pub candidate_digests : List String
  pub deleted_images : ℕ
  pub reclaimed_bytes : ℕ
  pub retained_images : ℕ

pub data PolicyError (E : Type 0) : Type 0 where
  no_provider : PolicyError E
  no_executor : PolicyError E
  digests_failed : E → PolicyError E
  collection_failed : E → PolicyError E

-- The call GCExecutor.GarbageCollect with errors `E` on the state `S`.
abbrev pub Executor : Type 0 → Type 0 → Type 0
Executor E S = List String → S → Result E GcResult × S

module _ {E S : Type 0} where
  abbrev reported : List String → Result E GcResult × S → Result (PolicyError E) GcPolicyResult × S
  reported referenced (err e, s) = (err (collection_failed e), s)
  reported referenced (ok r, s) = (
    ok (record {
      referenced_count = length referenced;
      total_registry_images = 0;
      candidate_digests = [];
      deleted_images = r.deleted_images;
      reclaimed_bytes = r.reclaimed_bytes;
      retained_images = r.retained_images;
    }),
    s,
  )

  abbrev cycle :
      Executor E S → Result E (List String) → S → Result (PolicyError E) GcPolicyResult × S
  cycle execute (err e) s = (err (digests_failed e), s)
  cycle execute (ok referenced) s = reported referenced (execute referenced s)

  unfoldable pub select_candidates_and_run :
      Option (Result E (List String))
      → Option (Executor E S)
      → S
      → Result (PolicyError E) GcPolicyResult × S
  select_candidates_and_run none execute s = (err no_provider, s)
  select_candidates_and_run (some digests) none s = (err no_executor, s)
  select_candidates_and_run (some digests) (some execute) s = cycle execute digests s

-- MemoryRegistry as an executor.
abbrev pub memory_executor :
    {E : Type 0} → List String → MemoryRegistry → Result E GcResult × MemoryRegistry
memory_executor referenced r = let (result, r') = garbage_collect referenced r in (ok result, r')
