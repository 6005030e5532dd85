-- ===== src/Autoscaler/Evaluate.antt =====
-- internal/autoscaler/autoscaler.go, Evaluate: the decision for a project from its policy, its
-- running deployment, the metric and the times of the last changes. The metrics provider is a
-- parameter. `none` in a decision is the zero value of the field; a reason is the text up to the
-- durations and the error that the source formats into it.
pub mod Cooldown
pub mod Evidence
use almichot_cloud.Prelude.{
  ℤ, pos, String, Bool, true, false, Option, none, some, List, [], ◌∷◌, Map, lookup, if◌then◌else◌,
  Result, ok, err, ltb_ℤ, leb_ℤ, time_sub,
}
use almichot_cloud.Deployments.Lifecycle.{Deployment, running, status_eq}
use almichot_cloud.Deployments.Repository.{Deployments, list}
use almichot_cloud.Autoscaler.{
  MetricFloats, MetricType, ScalingAction, action_none, scale_up, scale_down, ScalingPolicy,
  Verdict, calculate_desired_replicas,
}

-- `time.Since(last) < cooldown`, and false for a zero time.
unfoldable pub recently : ℤ → Option ℤ → ℤ → Bool
recently clock none cooldown = false
recently clock (some last) cooldown = ltb_ℤ (time_sub clock last) cooldown

-- The first deployment that is RUNNING.
abbrev pub active_of : List Deployment → Option Deployment
active_of [] = none
active_of (d ∷ ds) = let rest = active_of ds in if status_eq d.status running then some d else rest

abbrev at_least_one : ℤ → ℤ
at_least_one n = if leb_ℤ n (pos 0) then pos 1 else n

module _ (fl : MetricFloats) where
  pub record ScalingDecision : Type 0 where
    pub project_id : String
    pub current_replicas : ℤ
    pub desired_replicas : ℤ
    pub metric_type : Option MetricType
    pub metric_value : Option fl.F
    pub target_value : Option fl.F
    pub action : ScalingAction
    pub reason : String
    pub evaluated_at : ℤ

  pub record Autoscaler : Type 0 where
    pub policies : Map (ScalingPolicy fl)
    pub last_scale_up : Map ℤ
    pub last_scale_down : Map ℤ
    pub deployments : Deployments

  -- The cooldown windows: a change inside one becomes NONE with the current count.
  unfoldable pub cooled : ℤ → ScalingPolicy fl → Option ℤ → Option ℤ → ℤ → Verdict → Verdict
  cooled clock p last_up last_down current (desired, scale_up, reason) =
      if recently clock last_up p.scale_up_cooldown
      then (current, action_none, "scale-up suppressed: inside cooldown window")
      else (desired, scale_up, reason)
  cooled clock p last_up last_down current (desired, scale_down, reason) =
      if recently clock last_down p.scale_down_cooldown
      then (current, action_none, "scale-down suppressed: inside cooldown window")
      else if recently clock last_up p.scale_down_cooldown
      then (current, action_none, "scale-down suppressed: recently scaled up")
      else (desired, scale_down, reason)
  cooled clock p last_up last_down current (desired, action_none, reason) =
      (desired, action_none, reason)

  abbrev pub no_decision : ℤ → String → String → ScalingDecision
  no_decision now project why = record {
    project_id = project;
    current_replicas = pos 0;
    desired_replicas = pos 0;
    metric_type = none;
    metric_value = none;
    target_value = none;
    action = action_none;
    reason = why;
    evaluated_at = now;
  }

  -- From the answer of the metrics provider on.
  abbrev pub decide :
      ℤ → ℤ → Autoscaler → String → ScalingPolicy fl → ℤ → Result String fl.F → ScalingDecision
  decide now clock a project p current (err e) = record {
    project_id = project;
    current_replicas = current;
    desired_replicas = current;
    metric_type = some p.metric_type;
    metric_value = none;
    target_value = none;
    action = action_none;
    reason = "metrics feed unavailable";
    evaluated_at = now;
  }
  decide now clock a project p current (ok metric) =
      let v =
        cooled clock p (lookup project a.last_scale_up) (lookup project a.last_scale_down) current (
          calculate_desired_replicas fl current metric p.target_value p.min_replicas p.max_replicas
            p.tolerance) in
      record {
        project_id = project;
        current_replicas = current;
        desired_replicas = v.0;
        metric_type = some p.metric_type;
        metric_value = some metric;
        target_value = some p.target_value;
        action = v.1;
        reason = v.2;
        evaluated_at = now;
      }

  abbrev pub decide_active :
      ℤ
      → ℤ
      → (String → MetricType → Result String fl.F)
      → Autoscaler
      → String
      → ScalingPolicy fl
      → Option Deployment
      → ScalingDecision
  decide_active now clock metrics a project p none =
      no_decision now project "no running deployment found for project"
  decide_active now clock metrics a project p (some d) =
      decide now clock a project p (at_least_one d.instance_count) (metrics project p.metric_type)

  abbrev pub decide_by :
      ℤ
      → ℤ
      → (String → MetricType → Result String fl.F)
      → Autoscaler
      → String
      → Option (ScalingPolicy fl)
      → ScalingDecision
  decide_by now clock metrics a project none =
      no_decision now project "no scaling policy configured"
  decide_by now clock metrics a project (some p) =
      decide_active now clock metrics a project p (active_of (list project a.deployments))

  -- Evaluate; `now` and `clock` are its readings of the clock.
  unfoldable pub evaluate :
      ℤ → ℤ → (String → MetricType → Result String fl.F) → Autoscaler → String → ScalingDecision
  unfolding cooled
  evaluate now clock metrics a project =
      decide_by now clock metrics a project (lookup project a.policies)
