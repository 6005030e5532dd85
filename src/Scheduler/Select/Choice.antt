-- ===== src/Scheduler/Select/Choice.antt =====
-- internal/scheduler/scheduler.go: what SelectWorker chooses, and when it fails.
use almichot_cloud.Prelude.{
  ℤ, ℕ, ◌≡◌, ◌≤ℤ◌, refl, Bool, true, false, Option, List, [], ◌∷◌, Map, ok, err, In, here, there,
  In-filter, filter, length, Bool-cases, inl, inr, ◌⊎◌,
}
use almichot_cloud.Workers.Model.{Worker}
use almichot_cloud.Workers.Registry.{Registry, list_workers}
use almichot_cloud.Scheduler.Filter.{WorkloadRequirement, feasible, filter_workers}
use almichot_cloud.Scheduler.Rank.{Floats, rank, instance_count}
use almichot_cloud.Scheduler.Rank.First.{In-rank, rank-least}
use almichot_cloud.Scheduler.Select.{
  CountsProvider, deployment_counts, first_of_ranked, choose, select_among, select_worker,
  no_workers_registered, no_feasible_workers,
}

filter-In {ℓ} :
    {A : Type ℓ} (p : A → Bool) (x : A) (xs : List A) → In x xs → p x ≡ true → In x (filter p xs)
filter-In p x [] i h = elim i [ ]
filter-In p x (y ∷ ys) (here e) h = let g : p y ≡ true = rw (← e) h in rw g (here e)
filter-In p x (y ∷ ys) (there t) h = elim (Bool-cases (p y)) [
  | inl e ↦ rw e (there (filter-In p x ys t h))
  | inr e ↦ rw e (filter-In p x ys t h)
]

-- What is known of a choice among `ws`.
record IsChoice (req : WorkloadRequirement) (counts : Map ℤ) (ws : List Worker) (w : Worker)
    : Type 0 where
  pub listed : In w ws
  pub fits : feasible req w ≡ true
  pub least :
      (v : Worker)
      → In v ws
      → feasible req v ≡ true
      → instance_count counts w ≤ℤ instance_count counts v

first_of_ranked-least :
    (f : Floats) (counts : Map ℤ) (fs ranked : List Worker) (w : Worker)
    → rank f fs counts ≡ ranked
    → first_of_ranked ranked ≡ ok w
    → In w fs × ((v : Worker) → In v fs → instance_count counts w ≤ℤ instance_count counts v)
first_of_ranked-least f counts fs [] w e h = cc
first_of_ranked-least f counts fs (x ∷ xs) w e h =
    let o : x ≡ w = cc in
    ((In-rank f fs counts w).0 (rw e (here (cc))), rw (← o) (rank-least f fs counts x xs e))

choose-ok :
    (f : Floats) (counts : Map ℤ) (n : ℕ) (fs : List Worker) (w : Worker)
    → choose f counts n fs ≡ ok w
    → In w fs × ((v : Worker) → In v fs → instance_count counts w ≤ℤ instance_count counts v)
choose-ok f counts n [] w h = cc
choose-ok f counts n (x ∷ xs) w h =
    first_of_ranked-least f counts (x ∷ xs) (rank f (x ∷ xs) counts) w refl h

select_among-ok :
    (f : Floats) (counts : Map ℤ) (req : WorkloadRequirement) (ws : List Worker) (w : Worker)
    → select_among f counts req ws ≡ ok w
    → IsChoice req counts ws w
unfolding filter_workers
select_among-ok f counts req [] w h = cc
select_among-ok f counts req (x ∷ xs) w h =
    let (i, least) = choose-ok f counts _ (filter (feasible req) (x ∷ xs)) w h in
    let (listed, fits) = In-filter (feasible req) w (x ∷ xs) i in
    record {
      listed = listed;
      fits = fits;
      least = λ v j g. least v (filter-In (feasible req) v (x ∷ xs) j g);
    }

-- The worker that is selected is registered and passes the filter, and a registered worker that
-- passes the filter has no fewer instances of the deployment.
pub select_worker-least :
    (f : Floats) (provider : Option CountsProvider) (r : Registry) (req : WorkloadRequirement)
    (w v : Worker)
    → select_worker f provider r req ≡ ok w
    → In v (list_workers r)
    → feasible req v ≡ true
    → let counts = deployment_counts provider req.deployment_id in
      In w (list_workers r)
      × (feasible req w ≡ true)
      × (instance_count counts w ≤ℤ instance_count counts v)
unfolding select_worker
select_worker-least f provider r req w v h i fits =
    let c = select_among-ok f _ req (list_workers r) w h in (c.listed, c.fits, c.least v i fits)

first_of_ranked-total :
    (x : Worker) (ranked : List Worker)
    → In x ranked
    → (w : Worker) × (first_of_ranked ranked ≡ ok w)
first_of_ranked-total x [] i = elim i [ ]
first_of_ranked-total x (w ∷ ws) i = (w, refl)

choose-total :
    (f : Floats) (counts : Map ℤ) (n : ℕ) (fs : List Worker) (x : Worker)
    → In x fs
    → (w : Worker) × (choose f counts n fs ≡ ok w)
choose-total f counts n [] x i = elim i [ ]
choose-total f counts n (y ∷ ys) x i =
    first_of_ranked-total x (rank f (y ∷ ys) counts) ((In-rank f (y ∷ ys) counts x).1 i)

-- A worker is selected whenever a registered worker passes the filter: the ranking's first element
-- is never read from an empty slice.
pub select_worker-total :
    (f : Floats) (provider : Option CountsProvider) (r : Registry) (req : WorkloadRequirement)
    (v : Worker)
    → In v (list_workers r)
    → feasible req v ≡ true
    → (w : Worker) × (select_worker f provider r req ≡ ok w)
unfolding select_worker
select_worker-total f provider r req v i fits = among (list_workers r) i
  where
    counts : Map ℤ
    counts = deployment_counts provider req.deployment_id

    among : (ws : List Worker) → In v ws → (w : Worker) × (select_among f counts req ws ≡ ok w)
    among [] i = elim i [ ]
    among (x ∷ xs) i =
        unfold filter_workers in
        choose-total f counts _ (filter (feasible req) (x ∷ xs)) v
          (filter-In (feasible req) v (x ∷ xs) i fits)

filter-none {ℓ} :
    {A : Type ℓ} (p : A → Bool) (xs : List A) → ((x : A) → In x xs → p x ≡ false) → filter p xs ≡ []
filter-none p [] h = refl
filter-none p (x ∷ xs) h = rw (h x (here refl)) (filter-none p xs (λ y i. h y (there i)))

-- Where no registered worker passes the filter, the selection fails: with the number of workers
-- that it looked at, or because there are none.
pub select_worker-none :
    (f : Floats) (provider : Option CountsProvider) (r : Registry) (req : WorkloadRequirement)
    → ((v : Worker) → In v (list_workers r) → feasible req v ≡ false)
    → ((list_workers r ≡ []) × (select_worker f provider r req ≡ err no_workers_registered))
      ⊎ (select_worker f provider r req ≡ err (no_feasible_workers (length (list_workers r))))
unfolding select_worker
select_worker-none f provider r req h = among (list_workers r) h
  where
    counts : Map ℤ
    counts = deployment_counts provider req.deployment_id

    among :
        (ws : List Worker)
        → ((v : Worker) → In v ws → feasible req v ≡ false)
        → ((ws ≡ []) × (select_among f counts req ws ≡ err no_workers_registered))
          ⊎ (select_among f counts req ws ≡ err (no_feasible_workers (length ws)))
    among [] h = inl (refl, refl)
    among (x ∷ xs) h = inr (unfold filter_workers in rw (filter-none (feasible req) (x ∷ xs) h))
