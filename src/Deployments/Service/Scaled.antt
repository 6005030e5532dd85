-- ===== src/Deployments/Service/Scaled.antt =====
-- internal/deployments/service.go, ScaleDeployment: the number of replicas that a scaling leaves, and
-- which of them.
use almichot_cloud.Prelude.{
  ℤ, pos, pos_part, ℕ, zero, suc, ◌-◌, ◌≤◌, String, ◌≡◌, ◌≢◌, refl, sym, ap, ◌∙◌, true, false,
  Option, none, some, List, [], ◌∷◌, ◌++◌, arith, inl, inr, ◌⊎◌, Bool-cases, lookup,
  lookup-insert_self, length, filter, ltb, leb_ℤ, eqb,
}
use almichot_cloud.Deployments.Lifecycle.{Deployment, Instance, running, status_eq}
use almichot_cloud.Deployments.Repository.{update_scale}
use almichot_cloud.Deployments.Repository
use almichot_cloud.Deployments.Instances.{list_by_deployment}
use almichot_cloud.Deployments.Service.{Collaborators, ServiceError, Service, record_event}
use almichot_cloud.Deployments.Service.Grown.{HasGrown, HasGrown-refl, Ends, scale_up-Ends}
use almichot_cloud.Deployments.Service.Growth.{quiet, IsGrown-trans}
use almichot_cloud.Deployments.Service.Removed.{
  IsRemoved, IsRemoved-same, remove_replicas-IsRemoved, remove_replicas-deployments,
}
use almichot_cloud.Deployments.Service.Scaling.{
  is_active, Scaled, adjust_replicas, take, drop, finish_scaling, set_scale, scale_active,
  scale_deployment,
}

-- The first of the old replicas are left, and the others were removed.
pub record HasShrunk (c : Collaborators) (project : String) (old new : List Instance)
    (s t : Service) : Type 0 where
  pub gone : List Instance
  pub shortened : old ≡ new ++ gone
  pub removed : IsRemoved c project gone s t

-- Without an error there are `n` replicas. An error only comes while replicas are added, and
-- takes none away.
abbrev pub IsSized :
    Collaborators
    → String
    → ℕ
    → List Instance
    → List Instance
    → Option ServiceError
    → Service
    → Service
    → Type 0
IsSized c project n old new none s t =
    (length new ≡ n) × (HasGrown old new s t ⊎ HasShrunk c project old new s t)
IsSized c project n old new (some e) s t = HasGrown old new s t

length-take : (n : ℕ) (xs : List Instance) → n ≤ length xs → length (take n xs) ≡ n
length-take n [] h = omega arith
length-take zero (x ∷ xs) h = refl
length-take (suc n) (x ∷ xs) h = omega (arith, length-take n xs)

take-append-drop : (n : ℕ) (xs : List Instance) → take n xs ++ drop n xs ≡ xs
take-append-drop n [] = refl
take-append-drop zero (x ∷ xs) = refl
take-append-drop (suc n) (x ∷ xs) = ap (λ (l : List Instance). x ∷ l) (take-append-drop n xs)

Ends-IsSized :
    (c : Collaborators) (project : String) (n : ℕ) (old : List Instance) (s : Service) (r : Scaled)
    → Ends n old s r
    → IsSized c project n old r.active r.error s r.svc
Ends-IsSized c project n old s r (h, d, l) = by r.error refl
  where
    by : (o : Option ServiceError) → r.error ≡ o → IsSized c project n old r.active o s r.svc
    by none e = (l e, inl h)
    by (some x) e = h

adjust_replicas-IsSized :
    (c : Collaborators) (dep : Deployment) (target : ℕ) (active : List Instance) (s : Service)
    → let r = adjust_replicas c dep target active s in
      IsSized c dep.project_id target active r.active r.error s r.svc
unfolding adjust_replicas
adjust_replicas-IsSized c dep target active s = elim (Bool-cases (ltb (length active) target)) [
  | inl b ↦ rw b (
      Ends-IsSized c dep.project_id target active s _ (
        scale_up-Ends c dep (target - length active) (length active) target active active s s
          (ground arith) (HasGrown-refl active s) refl))
  | inr b ↦ rw b (
    length-take target active (ground arith),
    inr (record {
      gone = drop target active;
      shortened = sym (take-append-drop target active);
      removed = remove_replicas-IsRemoved c dep.project_id (drop target active) s;
    }),
  )
]

adjust_replicas-deployments :
    (c : Collaborators) (dep : Deployment) (target : ℕ) (active : List Instance) (s : Service)
    → (adjust_replicas c dep target active s).svc.deployments ≡ s.deployments
unfolding adjust_replicas
adjust_replicas-deployments c dep target active s = elim (Bool-cases (ltb (length active) target)) [
  | inl b ↦
      rw b
        (scale_up-Ends c dep (target - length active) (length active) target active active s s
          (ground arith) (HasGrown-refl active s) refl).1
  | inr b ↦ rw b (remove_replicas-deployments c dep.project_id (drop target active) s)
]

IsSized-same :
    (c : Collaborators) (project : String) (n : ℕ) (old new : List Instance)
    → (o : Option ServiceError) (s t u : Service) → u.instances ≡ t.instances
    → u.router ≡ t.router
    → u.stops ≡ t.stops
    → IsSized c project n old new o s t
    → IsSized c project n old new o s u
IsSized-same c project n old new o s t u i r e h = by o h
  where
    larger : HasGrown old new s t → HasGrown old new s u
    larger g = record {
      more = g.more;
      extended = g.extended;
      run = g.run;
      grown = IsGrown-trans s t u g.grown (quiet t u e r);
    }

    by :
        (o : Option ServiceError)
        → IsSized c project n old new o s t
        → IsSized c project n old new o s u
    by (some x) g = larger g
    by none (l, inl g) = (l, inl (larger g))
    by none (l, inr g) = (
      l,
      inr (record {
        gone = g.gone;
        shortened = g.shortened;
        removed = IsRemoved-same c project g.gone s t u i r e g.removed;
      }),
    )

-- The stored deployment has the two counts.
abbrev pub HasScale : String → ℤ → Service → Type 0
HasScale id n t =
    (d : Deployment) × (lookup id t.deployments ≡ some d)
    × (d.instance_count ≡ n)
    × (d.desired_replicas ≡ n)

set_scale-HasScale :
    (c : Collaborators) (dep d : Deployment) (target : ℤ) (s : Service)
    → lookup dep.id s.deployments ≡ some d
    → HasScale dep.id target (set_scale c dep target s)
unfolding set_scale update_scale
set_scale-HasScale c dep d target s at =
    rw at (_, lookup-insert_self dep.id _ s.deployments, refl, refl)

finish_scaling-IsSized :
    (c : Collaborators) (dep d : Deployment) (target : ℤ) (current n : ℕ) (s t : Service)
    → (old active : List Instance) (e : Option ServiceError)
    → IsSized c dep.project_id n old active e s t
    → lookup dep.id t.deployments ≡ some d
    → let (a, u) = finish_scaling c dep target current t active e in
      IsSized c dep.project_id n old a.instances a.error s u
      × (a.error ≡ none → HasScale dep.id target u)
unfolding finish_scaling record_event set_scale
finish_scaling-IsSized c dep d target current n s t old active none h at = (
  IsSized-same c dep.project_id n old active none s t _ refl refl refl h,
  λ k. set_scale-HasScale c dep d target t at,
)
finish_scaling-IsSized c dep d target current n s t old active (some e) h at =
    (h, λ k. absurd (some-none k refl))
  where
    some-none : some e ≡ none → e ≢ e
    some-none k = cc

scale_active-IsSized :
    (c : Collaborators) (dep d : Deployment) (target : ℤ) (active : List Instance) (s : Service)
    → lookup dep.id s.deployments ≡ some d
    → let (a, t) = scale_active c dep target active s in
      IsSized c dep.project_id (pos_part target) active a.instances a.error s t
      × (a.error ≡ none → HasScale dep.id target t)
unfolding scale_active set_scale
scale_active-IsSized c dep d target active s at =
    let r = adjust_replicas c dep (pos_part target) active s in
    elim (Bool-cases (eqb (length active) (pos_part target))) [
      | inl b ↦ rw b (
        IsSized-same c dep.project_id (pos_part target) active active none s s
            (set_scale c dep target s) refl refl refl (ground arith, inl (HasGrown-refl active s)),
        λ k. set_scale-HasScale c dep d target s at,
      )
      | inr b ↦ rw b (
          finish_scaling-IsSized c dep d target (length active) (pos_part target) s r.svc active
            r.active r.error (adjust_replicas-IsSized c dep (pos_part target) active s)
            (ap (lookup dep.id) (adjust_replicas-deployments c dep (pos_part target) active s)
              ∙ at))
    ]

-- A stored RUNNING deployment is scaled to a positive number. Without an error there are exactly
-- as many active instances as were asked for, and the stored deployment has the new count. Either
-- all the old active ones are there and each further one is RUNNING, with no stop request sent
-- and no route lost; or the first of the old ones are left. Then whatever is stored under the ID
-- of one of the others is STOPPED, and where every worker can be reached it was asked to stop on
-- its registered worker; only the others were asked to stop; and where the deployment names a
-- project, they have no route in it, and no route of another instance has changed. With an error
-- nothing was asked to stop, no route was lost, the old active ones are handed back, and each
-- further one is RUNNING.
pub scale_deployment-IsSized :
    (c : Collaborators) (id : String) (target : ℤ) (s : Service) (d : Deployment)
    → lookup id s.deployments ≡ some d
    → d.id ≡ id
    → d.status ≡ running
    → ltb 0 (pos_part target) ≡ true
    → let (a, t) = scale_deployment c id target s in
      IsSized c d.project_id
        (pos_part target)
        (filter is_active (list_by_deployment id s.instances))
        a.instances
        a.error
        s
        t
      × (a.error ≡ none → HasScale d.id target t)
unfolding scale_deployment Repository.get_by_id
scale_deployment-IsSized c id target s d at same st p =
    let positive : leb_ℤ target (pos 0) ≡ false = ground arith in
    let runs : status_eq d.status running ≡ true = rw st refl in
    rw (positive, at, runs)
      (scale_active-IsSized c d d target (filter is_active (list_by_deployment id s.instances)) s
        (ap (λ (i : String). lookup i s.deployments) same ∙ at))
