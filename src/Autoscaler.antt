-- ===== src/Autoscaler.antt =====
-- internal/autoscaler/policy.go: the replica count that a metric asks for. `float64` is a parameter
-- of the operations that the source applies; `int(...)` of a float may be any integer.
pub mod Bounds
pub mod Evaluate
use almichot_cloud.Prelude.{
  ℤ, pos, String, Bool, true, false, if◌then◌else◌, int_add, int_sub, ltb_ℤ, leb_ℤ, eqb_ℤ,
}

-- float64: `ceil_int x` is int(math.Ceil(x)), `floor_int x` is int(math.Floor(x)).
pub record MetricFloats : Type 1 where
  pub F : Type 0
  pub of_int : ℤ → F
  pub mul : F → F → F
  pub div : F → F → F
  pub sub : F → F → F
  pub abs : F → F
  pub le : F → F → Bool
  pub lt : F → F → Bool
  pub zero_float : F
  pub tenth : F
  pub one_float : F
  pub ceil_int : F → ℤ
  pub floor_int : F → ℤ

pub data MetricType : Type 0 where
  metric_cpu metric_rps : MetricType

pub data ScalingAction : Type 0 where
  action_none scale_up scale_down : ScalingAction

module _ (fl : MetricFloats) where
  pub record ScalingPolicy : Type 0 where
    pub project_id : String
    pub metric_type : MetricType
    pub target_value : fl.F
    pub tolerance : fl.F
    pub min_replicas : ℤ
    pub max_replicas : ℤ
    pub scale_up_cooldown : ℤ
    pub scale_down_cooldown : ℤ

abbrev pub Verdict : Type 0
Verdict = ℤ × ScalingAction × String

-- The three corrections at the head of the function.
abbrev pub floor_of : ℤ → ℤ
floor_of min_replicas = if leb_ℤ min_replicas (pos 0) then pos 1 else min_replicas

abbrev pub ceiling_of : ℤ → ℤ → ℤ
ceiling_of low max_replicas = if ltb_ℤ max_replicas low then low else max_replicas

abbrev pub current_of : ℤ → ℤ → ℤ
current_of low current = if leb_ℤ current (pos 0) then low else current

-- The branch ratio > 1, from the rounded product on.
unfoldable pub up_from : ℤ → ℤ → ℤ → Verdict
up_from high current product =
    let raised = if leb_ℤ product current then int_add current (pos 1) else product in
    let desired = if ltb_ℤ high raised then high else raised in
    if eqb_ℤ desired current
    then (current, action_none, "already at maximum replica ceiling")
    else (desired, scale_up, "metric exceeded target threshold")

-- The branch ratio <= 1, from the rounded product on.
unfoldable pub down_from : ℤ → ℤ → ℤ → Verdict
down_from low current product =
    let lowered = if leb_ℤ current product then int_sub current (pos 1) else product in
    let desired = if ltb_ℤ lowered low then low else lowered in
    if eqb_ℤ desired current
    then (current, action_none, "already at minimum replica floor")
    else (desired, scale_down, "metric dropped below target threshold")

-- From the corrected bounds and count on.
unfoldable pub desired_from : (fl : MetricFloats) → fl.F → fl.F → fl.F → ℤ → ℤ → ℤ → Verdict
unfolding up_from down_from
desired_from fl metric target tolerance low high current =
    if fl.le target fl.zero_float
    then (current, action_none, "invalid target value <= 0")
    else let deadband = if fl.le tolerance fl.zero_float then fl.tenth else tolerance in
      let ratio = fl.div metric target in
      let product = fl.mul (fl.of_int current) ratio in
      if fl.le (fl.abs (fl.sub ratio fl.one_float)) deadband
      then (current, action_none, "metric within tolerance deadband")
      else if fl.lt fl.one_float ratio
      then up_from high current (fl.ceil_int product)
      else down_from low current (fl.floor_int product)

unfoldable pub calculate_desired_replicas :
    (fl : MetricFloats) → ℤ → fl.F → fl.F → ℤ → ℤ → fl.F → Verdict
unfolding desired_from
calculate_desired_replicas fl current metric target min_replicas max_replicas tolerance =
    let low = floor_of min_replicas in
    desired_from fl metric target tolerance low (ceiling_of low max_replicas)
      (current_of low current)
