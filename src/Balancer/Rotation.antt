-- ===== src/Balancer/Rotation.antt =====
-- internal/loadbalancer/router.go, ServeHTTP: the rotation over the backends of a project.
use almichot_cloud.Prelude.{
  ℕ, zero, suc, ◌+◌, ◌%◌, ◌<◌, ◌≤◌, String, ◌≡◌, ◌≢◌, ◌∙◌, ap, Bool-cases, inl, inr, refl, false,
  some, List, [], ◌∷◌, ok, length, arith, word, get_elem?, eq_iff, str_eq,
}
use native.Mathlib.Nat.{div-add-mod, mod-lt}
use almichot_cloud.Balancer.{Target, Router, targets_of, route, next_counter, counted}

-- The state after requests for the projects of the list.
pub after_requests : List String → Router → Router
after_requests [] r = r
after_requests (project ∷ projects) r = after_requests projects (route project r).1

-- Two numbers less than `n` apart have different remainders.
mod_ne : (a b n : ℕ) → a < b → b < a + n → a % n ≢ b % n
mod_ne a b n lt near e = grind (arith, div-add-mod a n, div-add-mod b n)

get_elem?_total {ℓ} :
    {A : Type ℓ} (xs : List A) (i : ℕ) → i < length xs → (x : A) × (get_elem? xs i ≡ some x)
get_elem?_total [] i h = elim h [ ]
get_elem?_total (x ∷ xs) zero h = (x, refl)
get_elem?_total (x ∷ xs) (suc i) h = get_elem?_total xs i (omega arith)

-- A request for a project with backends goes to the position that the counter gives.
route_at :
    (project : String) (r : Router) (ts : List Target)
    → project ≢ ""
    → targets_of project r ≡ ts
    → 0 < length ts
    → r.counter + 1 < word
    → (t : Target) × (get_elem? ts ((r.counter + 1) % length ts) ≡ some t)
      × (route project r ≡ (ok t, record r { counter = r.counter + 1 }))
unfolding route
route_at project r [] n e p small = absurd (omega arith)
route_at project r (x ∷ xs) n e p small =
    let (t, at) = get_elem?_total (x ∷ xs) ((r.counter + 1) % length (x ∷ xs)) (mod-lt _ p) in
    let exact : next_counter r ≡ r.counter + 1 = omega arith in
    let not_empty : str_eq project "" ≡ false = ground (arith, eq_iff project "") in
    (t, at, rw (not_empty, route, e, exact, at))

-- The router with another counter, which `n` requests can lead to.
record IsCounted (n : ℕ) (r s : Router) : Type 0 where
  counter : ℕ
  state : s ≡ record r { counter = counter }
  forward : r.counter ≤ counter
  bounded : counter ≤ r.counter + n

route-IsCounted :
    (project : String) (r : Router) → r.counter + 1 < word → IsCounted 1 r (route project r).1
unfolding route
route-IsCounted project r small = elim (Bool-cases (str_eq project "")) [
  | inl b ↦ rw (route, b) stay
  | inr b ↦ rw (route, b) (by (targets_of project r))
]
  where
    stay : IsCounted 1 r r
    stay = record {
      counter = r.counter;
      state = refl;
      forward = omega arith;
      bounded = omega arith;
    }

    by : (ts : List Target) → IsCounted 1 r (counted ts r)
    by [] = stay
    by (t ∷ ts) = record {
      counter = next_counter r;
      state = refl;
      forward = omega arith;
      bounded = omega arith;
    }

after_requests-IsCounted :
    (projects : List String) (r : Router)
    → r.counter + length projects < word
    → IsCounted (length projects) r (after_requests projects r)
unfolding after_requests
after_requests-IsCounted [] r small = record {
  counter = r.counter;
  state = refl;
  forward = omega arith;
  bounded = omega arith;
}
after_requests-IsCounted (p ∷ ps) r small =
    let one = route-IsCounted p r (omega arith) in
    let s : Router = record r { counter = one.counter } in
    let more = after_requests-IsCounted ps s (omega (arith, one.bounded)) in
    record {
      counter = more.counter;
      state = ap (after_requests ps) one.state ∙ more.state;
      forward = omega (arith, one.forward, more.forward);
      bounded = omega (arith, one.bounded, more.bounded);
    }

-- A project with `n` backends is sent two requests, with requests for any projects, this one too,
-- between them. While the 64-bit counter does not wrap and the requests between the two are fewer
-- than `n - 1`, both are served, by backends at different places of the table.
pub route-rotates :
    (project : String) (r : Router) (between : List String)
    → project ≢ ""
    → r.counter + length between + 2 < word
    → length between + 1 < length (targets_of project r)
    → let ts = targets_of project r in
      let first = route project r in
      let second = route project (after_requests between first.1) in
      (i : ℕ) × (j : ℕ) × (t : Target) × (u : Target) × (i ≢ j)
      × (get_elem? ts i ≡ some t)
      × (get_elem? ts j ≡ some u)
      × (first.0 ≡ ok t)
      × (second.0 ≡ ok u)
route-rotates project r between n small near =
    let ts = targets_of project r in
    let (t, at, ea) = route_at project r ts n refl (omega arith) (omega arith) in
    let r1 : Router = record r { counter = r.counter + 1 } in
    let k = after_requests-IsCounted between r1 (omega arith) in
    let r2 : Router = record r { counter = k.counter } in
    let (u, bt, eb) = route_at project r2 ts n refl (omega arith) (omega (arith, k.bounded)) in
    (
      (r.counter + 1) % length ts,
      (k.counter + 1) % length ts,
      t,
      u,
      mod_ne (r.counter + 1) (k.counter + 1) (length ts) (omega (arith, k.forward))
          (omega (arith, k.bounded)),
      at,
      bt,
      rw ea refl,
      rw (ea, k.state, eb),
    )
