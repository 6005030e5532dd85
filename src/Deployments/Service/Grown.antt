-- ===== src/Deployments/Service/Grown.antt =====
-- internal/deployments/service.go, ScaleDeployment: the whole loop that adds replicas.
use mathlib.Core.List.{append_assoc, append-nil}
use almichot_cloud.Prelude.{
  ℕ, zero, suc, ◌+◌, ◌≡◌, ◌≢◌, In, here, there, In-append_cases, refl, sym, ap, ◌∙◌, none, some,
  List, [], ◌∷◌, ◌++◌, ok, err, arith, inl, inr, length, length-append,
}
use almichot_cloud.Deployments.Lifecycle.{Deployment, Instance}
use almichot_cloud.Deployments.Service.{Collaborators, Service}
use almichot_cloud.Deployments.Service.Growth.{
  IsGrown, IsGrown-refl, IsGrown-trans, IsAdded, add_replica-IsAdded,
}
use almichot_cloud.Deployments.Service.Scaling.{Scaled, Added, next_replica, add_replica, scale_up}

-- The old replicas are all there, each new one is RUNNING, and the state has only grown.
pub record HasGrown (old new : List Instance) (s t : Service) : Type 0 where
  pub more : List Instance
  pub extended : new ≡ old ++ more
  pub run : (x : Instance) → In x more → x.status ≡ "RUNNING"
  pub grown : IsGrown s t

pub HasGrown-refl : (old : List Instance) (s : Service) → HasGrown old old s s
HasGrown-refl old s = record {
  more = [];
  extended = sym (append-nil old);
  run = λ x v. elim v [ ];
  grown = IsGrown-refl s;
}

HasGrown-next :
    (old active : List Instance) (x : Instance) (r s t : Service)
    → HasGrown old active r s
    → x.status ≡ "RUNNING"
    → IsGrown s t
    → HasGrown old (active ++ x ∷ []) r t
HasGrown-next old active x r s t h st g = record {
  more = h.more ++ x ∷ [];
  extended = ap (λ (l : List Instance). l ++ x ∷ []) h.extended ∙ append_assoc old h.more (x ∷ []);
  run = λ y v. elim (In-append_cases h.more (x ∷ []) v) [
    | inl a ↦ h.run y a
    | inr b ↦ elim b [ here e ↦ rw e st | there u ↦ elim u [ ] ]
  ];
  grown = IsGrown-trans r s t h.grown g;
}

-- The loop writes no deployment, and without an error it ends with `n` replicas.
abbrev pub Ends : ℕ → List Instance → Service → Scaled → Type 0
Ends n old s r =
    HasGrown old r.active s r.svc
    × (r.svc.deployments ≡ s.deployments)
    × (r.error ≡ none → length r.active ≡ n)

next_replica-Ends :
    (n : ℕ) (old active : List Instance) (rest : Instance → Service → Scaled) (r : Service)
    (s : Service) (q : Added)
    → HasGrown old active r s
    → s.deployments ≡ r.deployments
    → IsAdded s q
    → ((x : Instance) (t : Service)
        → HasGrown old (active ++ x ∷ []) r t
        → t.deployments ≡ r.deployments
        → Ends n old r (rest x t))
    → Ends n old r (next_replica active rest q)
next_replica-Ends n old active rest r s (t, err e) h d a next = (
  record {
    more = h.more;
    extended = h.extended;
    run = h.run;
    grown = IsGrown-trans r s t h.grown a.grown;
  },
  a.same ∙ d,
  λ k. absurd (some-none k refl),
)
  where
    some-none : some e ≡ none → e ≢ e
    some-none k = cc
next_replica-Ends n old active rest r s (t, ok x) h d a next =
    next x t (HasGrown-next old active x r s t h (a.runs x refl) a.grown) (a.same ∙ d)

pub scale_up-Ends :
    (c : Collaborators) (dep : Deployment) (delta index n : ℕ) (old active : List Instance)
    → (r s : Service) → length active + delta ≡ n
    → HasGrown old active r s
    → s.deployments ≡ r.deployments
    → Ends n old r (scale_up c dep delta index active s)
unfolding scale_up
scale_up-Ends c dep zero index n old active r s h k d = (k, d, λ e. omega arith)
scale_up-Ends c dep (suc delta) index n old active r s h k d =
    next_replica-Ends n old active (λ x t. scale_up c dep delta (suc index) (active ++ x ∷ []) t) r
      s (add_replica c dep index s) k d (add_replica-IsAdded c dep index s)
      (λ x t g e.
        scale_up-Ends c dep delta (suc index) n old (active ++ x ∷ []) r t
          (omega (arith, length-append active (x ∷ []))) g e)
