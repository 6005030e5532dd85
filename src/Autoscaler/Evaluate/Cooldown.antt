-- ===== src/Autoscaler/Evaluate/Cooldown.antt =====
-- internal/autoscaler/autoscaler.go, Evaluate: when it does not act.
use mathlib.Core.Path.{subst}
use almichot_cloud.Prelude.{
  sym, ℤ, String, ◌≡◌, refl, false, Option, none, some, lookup, Result, ok, err, arith,
}
use almichot_cloud.Deployments.Lifecycle.{Deployment}
use almichot_cloud.Deployments.Repository.{list}
use almichot_cloud.Autoscaler.{
  MetricFloats, MetricType, action_none, scale_up, scale_down, ScalingPolicy, Verdict,
}
use almichot_cloud.Autoscaler.Evaluate.{
  recently, active_of, Autoscaler, cooled, decide_active, evaluate,
}

module _ (fl : MetricFloats) where
  cooled-scale_down :
      (clock : ℤ) (p : ScalingPolicy fl) (up down : Option ℤ) (current : ℤ) (v : Verdict)
      → (cooled fl clock p up down current v).1 ≡ scale_down
      → (recently clock down p.scale_down_cooldown ≡ false)
        × (recently clock up p.scale_down_cooldown ≡ false)
  unfolding cooled
  cooled-scale_down clock p up down current (d, scale_up, r) h = ground arith
  cooled-scale_down clock p up down current (d, action_none, r) h = cc
  cooled-scale_down clock p up down current (d, scale_down, r) h = ground arith

  cooled-scale_up :
      (clock : ℤ) (p : ScalingPolicy fl) (up down : Option ℤ) (current : ℤ) (v : Verdict)
      → (cooled fl clock p up down current v).1 ≡ scale_up
      → recently clock up p.scale_up_cooldown ≡ false
  unfolding cooled
  cooled-scale_up clock p up down current (d, scale_up, r) h = ground arith
  cooled-scale_up clock p up down current (d, action_none, r) h = cc
  cooled-scale_up clock p up down current (d, scale_down, r) h = ground arith

  decide_active-scale_down :
      (now clock : ℤ) (a : Autoscaler fl) (project : String) (p : ScalingPolicy fl)
      (o : Option Deployment)
      → (r : Result String fl.F)
      → (decide_active fl now clock (λ q t. r) a project p o).action ≡ scale_down
      → (recently clock (lookup project a.last_scale_down) p.scale_down_cooldown ≡ false)
        × (recently clock (lookup project a.last_scale_up) p.scale_down_cooldown ≡ false)
  decide_active-scale_down now clock a project p none r h = cc
  decide_active-scale_down now clock a project p (some d) (err e) h = cc
  decide_active-scale_down now clock a project p (some d) (ok x) h =
      cooled-scale_down clock p _ _ _ _ h

  decide_active-scale_up :
      (now clock : ℤ) (a : Autoscaler fl) (project : String) (p : ScalingPolicy fl)
      → (o : Option Deployment) → (r : Result String fl.F)
      → (decide_active fl now clock (λ q t. r) a project p o).action ≡ scale_up
      → recently clock (lookup project a.last_scale_up) p.scale_up_cooldown ≡ false
  decide_active-scale_up now clock a project p none r h = cc
  decide_active-scale_up now clock a project p (some d) (err e) h = cc
  decide_active-scale_up now clock a project p (some d) (ok x) h = cooled-scale_up clock p _ _ _ _ h

  decide_active-holds :
      (now clock : ℤ) (a : Autoscaler fl) (project : String) (p : ScalingPolicy fl)
      → (o : Option Deployment) → (e : String)
      → let d = decide_active fl now clock (λ q t. err e) a project p o in
        (d.action ≡ action_none) × (d.desired_replicas ≡ d.current_replicas)
  decide_active-holds now clock a project p none e = (refl, refl)
  decide_active-holds now clock a project p (some d) e = (refl, refl)

-- Evaluate answers SCALE_DOWN for a project with a policy only when neither the last change
-- downwards nor the last change upwards lies within the policy's cooldown for scaling down.
pub evaluate-scale_down :
    (fl : MetricFloats) (now clock : ℤ) (metrics : String → MetricType → Result String fl.F)
    → (a : Autoscaler fl) (project : String) (p : ScalingPolicy fl)
    → lookup project a.policies ≡ some p
    → (evaluate fl now clock metrics a project).action ≡ scale_down
    → (recently clock (lookup project a.last_scale_down) p.scale_down_cooldown ≡ false)
      × (recently clock (lookup project a.last_scale_up) p.scale_down_cooldown ≡ false)
unfolding evaluate
evaluate-scale_down fl now clock metrics a project p at h =
    decide_active-scale_down fl now clock a project p (active_of (list project a.deployments))
      (metrics project p.metric_type) (rw at at h)

-- Evaluate answers SCALE_UP for a project with a policy only when the last change upwards does not
-- lie within the policy's cooldown for scaling up.
pub evaluate-scale_up :
    (fl : MetricFloats) (now clock : ℤ) (metrics : String → MetricType → Result String fl.F)
    → (a : Autoscaler fl) (project : String) (p : ScalingPolicy fl)
    → lookup project a.policies ≡ some p
    → (evaluate fl now clock metrics a project).action ≡ scale_up
    → recently clock (lookup project a.last_scale_up) p.scale_up_cooldown ≡ false
unfolding evaluate
evaluate-scale_up fl now clock metrics a project p at h =
    decide_active-scale_up fl now clock a project p (active_of (list project a.deployments))
      (metrics project p.metric_type) (rw at at h)

-- When the metrics provider fails for the metric of the project's policy, Evaluate answers NONE and
-- the desired count is the current one.
pub evaluate-holds :
    (fl : MetricFloats) (now clock : ℤ) (metrics : String → MetricType → Result String fl.F)
    → (a : Autoscaler fl) (project : String) (p : ScalingPolicy fl) (e : String)
    → lookup project a.policies ≡ some p
    → metrics project p.metric_type ≡ err e
    → let d = evaluate fl now clock metrics a project in
      (d.action ≡ action_none) × (d.desired_replicas ≡ d.current_replicas)
unfolding evaluate
evaluate-holds fl now clock metrics a project p e at fails = rw at (
    subst
      (λ (r : Result String fl.F).
        let d =
          decide_active fl now clock (λ q t. r) a project p
            (active_of (list project a.deployments)) in
        (d.action ≡ action_none) × (d.desired_replicas ≡ d.current_replicas))
      (sym fails)
      (decide_active-holds fl now clock a project p (active_of (list project a.deployments)) e))
