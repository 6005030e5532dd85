-- ===== src/Workers/Repository/Tables.antt =====
-- internal/workers: what it means that the two maps of a table and its records agree.
use almichot_cloud.Prelude.{
  pos, ℕ, String, ◌≡◌, ◌≢◌, ◌⊎◌, inl, inr, ap, ◌∙◌, refl, true, false, none, some, List, [], ◌∷◌,
  ◌++◌, lookup, insert, get_elem?, set, length, get_elem?-set_self, get_elem?-set_ne,
  get_elem?-append_length, get_elem?-append_left, lookup-insert_self, lookup-insert_cases,
  lookup-insert_old, insert_same, eq_iff, ◌≤ℤ◌, arith, suc, zero,
}
use native.Mathlib.Decide.{ℕ_discrete}
use almichot_cloud.Workers.Model.{Worker, ready, draining}
use almichot_cloud.Workers.Repository.{Table, empty_table, store, link, enter}

-- Every pointer is valid and leads to the record of its key or ID, and every record is reached
-- by its key, and by its ID unless that is empty.
pub record IsLinked (t : Table) : Type 0 where
  pub by_key :
      (k : String) (p : ℕ)
      → lookup k t.workers ≡ some p
      → (w : Worker) × (get_elem? t.heap p ≡ some w) × (w.worker_key ≡ k)
  pub by_ident :
      (i : String) (p : ℕ)
      → lookup i t.by_id ≡ some p
      → (w : Worker) × (get_elem? t.heap p ≡ some w) × (w.id ≡ i)
  pub key_of :
      (p : ℕ) (w : Worker) → get_elem? t.heap p ≡ some w → lookup w.worker_key t.workers ≡ some p
  pub ident_of :
      (p : ℕ) (w : Worker) → get_elem? t.heap p ≡ some w → w.id ≢ "" → lookup w.id t.by_id ≡ some p

-- A worker is ready and schedulable or draining and not, and its load is not negative.
pub record IsSettled (w : Worker) : Type 0 where
  pub scheduling :
      ((w.state ≡ ready) × (w.schedulable ≡ true))
      ⊎ ((w.state ≡ draining) × (w.schedulable ≡ false))
  pub load : pos 0 ≤ℤ w.active_workloads

pub record IsSound (t : Table) : Type 0 where
  pub linked : IsLinked t
  pub settled : (p : ℕ) (w : Worker) → get_elem? t.heap p ≡ some w → IsSettled w

pub empty_table-IsSound : IsSound empty_table
unfolding lookup
empty_table-IsSound = record {
  linked = record {
    by_key = λ k p h. cc;
    by_ident = λ i p h. cc;
    key_of = λ p w h. cc;
    ident_of = λ p w h n. cc;
  };
  settled = λ p w h. cc;
}

-- `v` is an update of `w`: it has the same names.
pub record Updates (v w : Worker) : Type 0 where
  pub same_key : v.worker_key ≡ w.worker_key
  pub same_id : v.id ≡ w.id

-- What stands at a position after a write: the new record there, the old ones elsewhere.
get-set_cases :
    (xs : List Worker) (p q : ℕ) (v w x : Worker)
    → get_elem? xs p ≡ some w
    → get_elem? (set xs p v) q ≡ some x
    → ((p ≡ q) × (x ≡ v)) ⊎ (get_elem? xs q ≡ some x)
get-set_cases xs p q v w x old new = elim (ℕ_discrete p q) [
  | yes e ↦ inl (e, ground (arith, get_elem?-set_self xs p v w old, e))
  | no n ↦ inr (rw (get_elem?-set_ne xs p q v n) at new)
]

-- The record that a valid position holds after a write.
get-set-some :
    (xs : List Worker) (p q : ℕ) (v w x : Worker)
    → get_elem? xs p ≡ some w
    → Updates v w
    → get_elem? xs q ≡ some x
    → (y : Worker) × (get_elem? (set xs p v) q ≡ some y) × Updates y x
get-set-some xs p q v w x old u at = elim (ℕ_discrete p q) [
  | yes e ↦ (v, rw (← e) (get_elem?-set_self xs p v w old), same e)
  | no n ↦ (x, get_elem?-set_ne xs p q v n ∙ at, record { same_key = refl; same_id = refl })
]
  where
    same : p ≡ q → Updates v x
    same e = let o : w ≡ x = cc in rw (← o) u

-- A write through a valid pointer that keeps the names keeps a table linked.
pub store-IsLinked :
    (t : Table) (p : ℕ) (v w : Worker)
    → IsLinked t
    → get_elem? t.heap p ≡ some w
    → Updates v w
    → IsLinked (store t p v)
store-IsLinked t p v w l old u = record {
  by_key = λ k q h.
      let (x, at, named) = l.by_key k q h in
      let (y, at', u') = get-set-some t.heap p q v w x old u at in (y, at', u'.same_key ∙ named);
  by_ident = λ i q h.
      let (x, at, named) = l.by_ident i q h in
      let (y, at', u') = get-set-some t.heap p q v w x old u at in (y, at', u'.same_id ∙ named);
  key_of = λ q x h. elim (get-set_cases t.heap p q v w x old h) [
    | inl (e, f) ↦ rw (f, ← e, u.same_key) (l.key_of p w old)
    | inr o ↦ l.key_of q x o
  ];
  ident_of = λ q x h n. elim (get-set_cases t.heap p q v w x old h) [
    | inl (e, f) ↦
        let n' : w.id ≢ "" = λ z. n (ap (λ (y : Worker). y.id) f ∙ u.same_id ∙ z) in
        rw (f, ← e, u.same_id) (l.ident_of p w old n')
    | inr o ↦ l.ident_of q x o n
  ];
}

pub store-IsSound :
    (t : Table) (p : ℕ) (v w : Worker)
    → IsSound t
    → get_elem? t.heap p ≡ some w
    → Updates v w
    → (IsSettled w → IsSettled v)
    → IsSound (store t p v)
store-IsSound t p v w s old u f = record {
  linked = store-IsLinked t p v w s.linked old u;
  settled = λ q x h. elim (get-set_cases t.heap p q v w x old h) [
    | inl (e, g) ↦ rw g (f (s.settled p w old))
    | inr o ↦ s.settled q x o
  ];
}

-- The records after an allocation: the new one at the end, the old ones where they were.
get-append_cases :
    (xs : List Worker) (q : ℕ) (v x : Worker)
    → get_elem? (xs ++ v ∷ []) q ≡ some x
    → ((q ≡ length xs) × (x ≡ v)) ⊎ (get_elem? xs q ≡ some x)
get-append_cases [] zero v x h = inl (refl, cc)
get-append_cases [] (suc q) v x h = cc
get-append_cases (y ∷ ys) zero v x h = inr h
get-append_cases (y ∷ ys) (suc q) v x h = elim (get-append_cases ys q v x h) [
  | inl (e, f) ↦ inl (ap suc e, f)
  | inr o ↦ inr o
]

-- A record with an ID is entered under it.
by_id-enter :
    (t : Table) (v : Worker) → v.id ≢ "" → (enter v t).by_id ≡ insert v.id (length t.heap) t.by_id
unfolding enter
by_id-enter t v named = ground (arith, eq_iff v.id "")

-- A new record under a new key and a new ID keeps a table linked.
pub enter-IsLinked :
    (t : Table) (v : Worker)
    → IsLinked t
    → lookup v.worker_key t.workers ≡ none
    → v.id ≢ ""
    → lookup v.id t.by_id ≡ none
    → IsLinked (enter v t)
unfolding enter
enter-IsLinked t v l new_key named new_id =
    let p = length t.heap in
    let ids = by_id-enter t v named in
    record {
      by_key = λ k q h. elim (lookup-insert_cases v.worker_key k p q t.workers h) [
        | inl (e, f) ↦ (v, rw (← f) (get_elem?-append_length t.heap v), e)
        | inr o ↦
            let (x, at, name) = l.by_key k q o in
            (x, get_elem?-append_left t.heap (v ∷ []) q x at, name)
      ];
      by_ident = λ i q h. elim (lookup-insert_cases v.id i p q t.by_id (rw ids at h)) [
        | inl (e, f) ↦ (v, rw (← f) (get_elem?-append_length t.heap v), e)
        | inr o ↦
            let (x, at, name) = l.by_ident i q o in
            (x, get_elem?-append_left t.heap (v ∷ []) q x at, name)
      ];
      key_of = λ q x h. elim (get-append_cases t.heap q v x h) [
        | inl (e, f) ↦ rw (f, e) (lookup-insert_self v.worker_key p t.workers)
        | inr o ↦ lookup-insert_old v.worker_key x.worker_key p q t.workers new_key (l.key_of q x o)
      ];
      ident_of = λ q x h n. rw ids (elim (get-append_cases t.heap q v x h) [
        | inl (e, f) ↦ rw (f, e) (lookup-insert_self v.id p t.by_id)
        | inr o ↦ lookup-insert_old v.id x.id p q t.by_id new_id (l.ident_of q x o n)
      ]);
    }

pub enter-IsSound :
    (t : Table) (v : Worker)
    → IsSound t
    → lookup v.worker_key t.workers ≡ none
    → v.id ≢ ""
    → lookup v.id t.by_id ≡ none
    → IsSettled v
    → IsSound (enter v t)
unfolding enter
enter-IsSound t v s new_key named new_id sv = record {
  linked = enter-IsLinked t v s.linked new_key named new_id;
  settled = λ q x h. elim (get-append_cases t.heap q v x h) [
    | inl (e, f) ↦ rw f sv
    | inr o ↦ s.settled q x o
  ];
}

-- Entering a pointer where both maps already hold it changes nothing.
pub link_same :
    (t : Table) (p : ℕ) (v : Worker) → IsLinked t → get_elem? t.heap p ≡ some v → link p v t ≡ t
unfolding link
link_same t p v l at =
    rw (insert_same v.worker_key p t.workers (l.key_of p v at))
      (ground (arith, eq_iff v.id "", l.ident_of p v at, insert_same v.id p t.by_id))
