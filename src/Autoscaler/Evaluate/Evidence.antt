-- ===== src/Autoscaler/Evaluate/Evidence.antt =====
-- internal/autoscaler/autoscaler.go, Evaluate: what a decision to scale rests on.
use almichot_cloud.Prelude.{
  ℤ, pos, String, ◌≡◌, ◌≢◌, refl, sym, if◌then◌else◌, ◌⊎◌, inl, inr, ◌≤ℤ◌, leb_ℤ, true, some, List,
  [], ◌∷◌, lookup, Result, ok, err, arith, In, here, there, Bool-cases, Option-cases,
}
use almichot_cloud.Deployments.Lifecycle.{
  Deployment, DeploymentStatus, queued, building, built, scheduling, starting, running, failed,
  stopped, rolled_back, status_eq,
}
use almichot_cloud.Deployments.Repository.{list}
use almichot_cloud.Autoscaler.{MetricFloats, MetricType, action_none, ScalingPolicy}
use almichot_cloud.Autoscaler.Evaluate.{active_of, Autoscaler, ScalingDecision, evaluate}

is_running_lem : (st : DeploymentStatus) → status_eq st running ≡ true → st ≡ running
is_running_lem running h = refl
is_running_lem queued h = cc
is_running_lem building h = cc
is_running_lem built h = cc
is_running_lem scheduling h = cc
is_running_lem starting h = cc
is_running_lem failed h = cc
is_running_lem stopped h = cc
is_running_lem rolled_back h = cc

active_of-running :
    (ds : List Deployment) (d : Deployment) → active_of ds ≡ some d → In d ds × (d.status ≡ running)
active_of-running [] d h = absurd cc
active_of-running (x ∷ ds) d h = elim (Bool-cases (status_eq x.status running)) [
  | inl b ↦ taken (is_running_lem x.status b) (rw b at h)
  | inr b ↦ let (v, st) = active_of-running ds d (rw b at h) in (there v, st)
]
  where
    taken : x.status ≡ running → some x ≡ some d → In d (x ∷ ds) × (d.status ≡ running)
    taken st e = let same : x ≡ d = cc in (here (sym same), rw same at st)

-- The replica count that a decision starts from: the deployment's, or 1 for one that is not positive.
abbrev pub IsCountOf : Deployment → ℤ → Type 0
IsCountOf d n =
    ((pos 1 ≤ℤ d.instance_count) × (n ≡ d.instance_count))
    ⊎ ((d.instance_count ≤ℤ pos 0) × (n ≡ pos 1))

module _ (fl : MetricFloats) where
  -- What stands behind a decision: a policy of the project, a RUNNING deployment of the project
  -- with as many replicas as the decision says, and a value of the policy's metric, which the
  -- decision names.
  pub record HasEvidence (metrics : String → MetricType → Result String fl.F) (a : Autoscaler fl)
      (project : String) (v : ScalingDecision fl) : Type 0 where
    pub policy : ScalingPolicy fl
    pub deployment : Deployment
    pub metric : fl.F
    pub has_policy : lookup project a.policies ≡ some policy
    pub is_stored : In deployment (list project a.deployments)
    pub is_running : deployment.status ≡ running
    pub count : IsCountOf deployment v.current_replicas
    pub measured : metrics project policy.metric_type ≡ ok metric
    pub named : v.metric_value ≡ some metric

-- Where Evaluate answers with anything but NONE, there is a policy for the project, a RUNNING
-- deployment of the project whose number of replicas is the current count of the answer (1 for a
-- number that is not positive), and a value of the policy's metric, which the answer names.
pub evaluate-HasEvidence :
    (fl : MetricFloats) (now clock : ℤ) (metrics : String → MetricType → Result String fl.F)
    → (a : Autoscaler fl) (project : String)
    → (evaluate fl now clock metrics a project).action ≢ action_none
    → HasEvidence fl metrics a project (evaluate fl now clock metrics a project)
unfolding evaluate
evaluate-HasEvidence fl now clock metrics a project acts =
    elim (Option-cases (lookup project a.policies)) [
      | inl e ↦ absurd (acts (rw e refl))
      | inr (p, e) ↦ elim (Option-cases (active_of (list project a.deployments))) [
        | inl f ↦ absurd (acts (rw (e, f) refl))
        | inr (d, f) ↦
            let (v, st) = active_of-running (list project a.deployments) d f in
            elim (result_cases (metrics project p.metric_type)) [
              | inl (x, m) ↦ absurd (acts (rw (e, f, m) refl))
              | inr (x, m) ↦
                  rw (e, f, m)
                    (record {
                      policy = p;
                      deployment = d;
                      metric = x;
                      has_policy = e;
                      is_stored = v;
                      is_running = st;
                      count = counted d;
                      measured = m;
                      named = refl;
                    })
            ]
      ]
    ]
  where
    result_cases :
        (r : Result String fl.F) → ((x : String) × (r ≡ err x)) ⊎ ((x : fl.F) × (r ≡ ok x))
    result_cases (err x) = inl (x, refl)
    result_cases (ok x) = inr (x, refl)

    counted :
        (d : Deployment)
        → IsCountOf d (if leb_ℤ d.instance_count (pos 0) then pos 1 else d.instance_count)
    counted d = elim (Bool-cases (leb_ℤ d.instance_count (pos 0))) [
      | inl b ↦ inr (ground arith, rw b refl)
      | inr b ↦ inl (ground arith, rw b refl)
    ]
