-- ===== src/Workers/Health.antt =====
-- internal/workers/health.go: the health state machine, from missed and received heartbeats.
pub mod Timeout
pub mod Healing
use almichot_cloud.Prelude.{
  ℤ, pos, ℕ, Bool, false, ◌||◌, if◌then◌else◌, leb_ℤ, int_add, int_div, pos_part,
}
use almichot_cloud.Workers.Model.{
  Worker, WorkerHealth, healthy, suspected, unhealthy, is_unhealthy, is_suspected, is_unreachable,
}

pub record HealthStateMachineConfig : Type 0 where
  pub heartbeat_interval : ℤ
  pub suspected_threshold : ℤ
  pub unhealthy_threshold : ℤ
  pub consecutive_beats_to_heal : ℤ

-- 1 * time.Second
abbrev pub second : ℕ
second = 1000000000

abbrev pub default_health_config : HealthStateMachineConfig
default_health_config = record {
  heartbeat_interval = pos second;
  suspected_threshold = pos 2;
  unhealthy_threshold = pos 3;
  consecutive_beats_to_heal = pos 2;
}

-- The interval that the division uses, which is above 0.
unfoldable pub effective_interval : HealthStateMachineConfig → ℕ
effective_interval cfg =
    if leb_ℤ cfg.heartbeat_interval (pos 0) then second else pos_part cfg.heartbeat_interval

-- The result does not depend on the current health.
unfoldable pub evaluate_health_transition :
    WorkerHealth → ℤ → HealthStateMachineConfig → WorkerHealth × ℤ
evaluate_health_transition current elapsed cfg =
    let missed = int_div elapsed (effective_interval cfg) in
    if leb_ℤ cfg.unhealthy_threshold missed
    then (unhealthy, missed)
    else if leb_ℤ cfg.suspected_threshold missed
    then (suspected, missed)
    else (healthy, missed)

abbrev pub needs_healing : WorkerHealth → Bool
needs_healing h = is_unhealthy h || is_suspected h || is_unreachable h

-- The worker after a valid heartbeat; its `health` is the value that the source returns.
unfoldable pub apply_heartbeat_success : HealthStateMachineConfig → Worker → Worker
apply_heartbeat_success cfg w =
    let beats = int_add w.consecutive_beats (pos 1) in
    if needs_healing w.health
    then (if leb_ℤ cfg.consecutive_beats_to_heal beats
        then record w {
          consecutive_beats = beats;
          consecutive_misses = pos 0;
          health = healthy;
          is_partitioned = false;
        }
        else record w { consecutive_beats = beats; consecutive_misses = pos 0 })
    else record w { consecutive_beats = beats; consecutive_misses = pos 0; health = healthy }
