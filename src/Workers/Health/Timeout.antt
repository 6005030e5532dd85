-- ===== src/Workers/Health/Timeout.antt =====
-- internal/workers/health.go, EvaluateHealthTransition: what a silence of a given length means.
use almichot_cloud.Prelude.{
  ℤ, pos, ℕ, ◌≤◌, ◌<◌, ◌≡◌, ◌*◌, ◌↔◌, ◌≤ℤ◌, arith, int_div, int_div_mono, int_div_reaches,
}
use almichot_cloud.Workers.Model.{WorkerHealth, suspected, unhealthy}
use almichot_cloud.Workers.Health.{
  HealthStateMachineConfig, effective_interval, evaluate_health_transition,
}

-- How bad a verdict is.
abbrev pub severity : WorkerHealth → ℕ
severity unhealthy = 2
severity suspected = 1
severity _ = 0

effective_interval_pos : (cfg : HealthStateMachineConfig) → 0 < effective_interval cfg
unfolding effective_interval
effective_interval_pos cfg = ground arith

-- A longer silence never gives a better verdict, whatever the configuration.
pub evaluate_health_transition_mono :
    (h k : WorkerHealth) (a b : ℤ) (cfg : HealthStateMachineConfig)
    → a ≤ℤ b
    → severity (evaluate_health_transition h a cfg).0
      ≤ severity (evaluate_health_transition k b cfg).0
unfolding evaluate_health_transition
evaluate_health_transition_mono h k a b cfg le =
    ground (arith, int_div_mono a b (effective_interval cfg) (effective_interval_pos cfg) le)

unhealthy_iff_missed :
    (h : WorkerHealth) (t : ℤ) (cfg : HealthStateMachineConfig)
    → ((evaluate_health_transition h t cfg).0 ≡ unhealthy)
      ↔ (cfg.unhealthy_threshold ≤ℤ int_div t (effective_interval cfg))
unfolding evaluate_health_transition
unhealthy_iff_missed h t cfg = (λ e. ground arith, λ l. ground arith)

effective_interval_lem :
    (cfg : HealthStateMachineConfig) (d : ℕ)
    → 0 < d
    → cfg.heartbeat_interval ≡ pos d
    → effective_interval cfg ≡ d
unfolding effective_interval
effective_interval_lem cfg d p e = ground arith

-- With an interval of `d` nanoseconds and a threshold of `n` missed beats, both above 0, a worker
-- is declared unhealthy exactly from a silence of `n * d` nanoseconds on.
pub unhealthy_iff_silence :
    (h : WorkerHealth) (t : ℤ) (d n : ℕ) (cfg : HealthStateMachineConfig)
    → 0 < d
    → 0 < n
    → cfg.heartbeat_interval ≡ pos d
    → cfg.unhealthy_threshold ≡ pos n
    → ((evaluate_health_transition h t cfg).0 ≡ unhealthy) ↔ (pos (n * d) ≤ℤ t)
unfolding effective_interval
unhealthy_iff_silence h t d n cfg pd pn ed en =
    let reaches : (pos n ≤ℤ int_div t (effective_interval cfg)) ↔ (pos (n * d) ≤ℤ t) =
      rw (effective_interval_lem cfg d pd ed) (int_div_reaches t d n pd pn) in
    let missed = unhealthy_iff_missed h t cfg in
    (λ e. reaches.0 (rw en at (missed.0 e)), λ l. missed.1 (rw en (reaches.1 l)))
