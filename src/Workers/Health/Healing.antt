-- ===== src/Workers/Health/Healing.antt =====
-- internal/workers/health.go, ApplyHeartbeatSuccess: how many heartbeats heal a worker.
use almichot_cloud.Prelude.{
  pos, ℕ, zero, suc, ◌<◌, ◌≡◌, Bool, true, false, arith, leb, if◌then◌else◌, int_add_one, half_word,
}
use almichot_cloud.Workers.Model.{Worker, WorkerHealth, healthy}
use almichot_cloud.Workers.Health.{HealthStateMachineConfig, needs_healing, apply_heartbeat_success}

-- The worker after `k` heartbeats in a row.
unfoldable pub after_beats : HealthStateMachineConfig → ℕ → Worker → Worker
after_beats cfg zero w = w
after_beats cfg (suc k) w = apply_heartbeat_success cfg (after_beats cfg k w)

-- What holds after `k` heartbeats of a worker that had health `h` and the mark `b` and needed `n`.
record HasBeats (h : WorkerHealth) (b : Bool) (n k : ℕ) (w : Worker) : Type 0 where
  counted : w.consecutive_beats ≡ pos k
  health_is : w.health ≡ (if leb n k then healthy else h)
  mark_is : w.is_partitioned ≡ (if leb n k then false else b)

HasBeats-step :
    (cfg : HealthStateMachineConfig) (h : WorkerHealth) (b : Bool) (n k : ℕ) (w : Worker)
    → cfg.consecutive_beats_to_heal ≡ pos n
    → needs_healing h ≡ true
    → suc k < half_word
    → HasBeats h b n k w
    → HasBeats h b n (suc k) (apply_heartbeat_success cfg w)
unfolding apply_heartbeat_success
HasBeats-step cfg h b n k w e nh small beats = ground (arith, int_add_one k)

HasBeats-after_beats :
    (cfg : HealthStateMachineConfig) (n k : ℕ) (w : Worker)
    → cfg.consecutive_beats_to_heal ≡ pos n
    → needs_healing w.health ≡ true
    → w.consecutive_beats ≡ pos 0
    → 0 < n
    → k < half_word
    → HasBeats w.health w.is_partitioned n k (after_beats cfg k w)
unfolding after_beats
HasBeats-after_beats cfg n zero w e nh z p small = ground arith
HasBeats-after_beats cfg n (suc k) w e nh z p small =
    HasBeats-step cfg w.health w.is_partitioned n k (after_beats cfg k w) e nh small
      (HasBeats-after_beats cfg n k w e nh z p (omega arith))

-- A worker that is unhealthy, suspected or unreachable and has counted no heartbeat yet, where
-- `n` beats heal and `0 < n`: after `k` heartbeats in a row (fewer than 2^63) it is healthy if
-- `n ≤ k` and has its old health otherwise, and its partition mark is cleared then and is as it was
-- otherwise.
pub after_beats-health :
    (cfg : HealthStateMachineConfig) (n k : ℕ) (w : Worker)
    → cfg.consecutive_beats_to_heal ≡ pos n
    → needs_healing w.health ≡ true
    → w.consecutive_beats ≡ pos 0
    → 0 < n
    → k < half_word
    → ((after_beats cfg k w).health ≡ (if leb n k then healthy else w.health))
      × ((after_beats cfg k w).is_partitioned ≡ (if leb n k then false else w.is_partitioned))
after_beats-health cfg n k w e nh z p small =
    let b = HasBeats-after_beats cfg n k w e nh z p small in (b.health_is, b.mark_is)

-- A worker that is healthy while it is marked as partitioned stays so under any number of
-- heartbeats: the mark is only cleared where a worker is healed.
pub after_beats-keep_mark :
    (cfg : HealthStateMachineConfig) (k : ℕ) (w : Worker)
    → w.health ≡ healthy
    → w.is_partitioned ≡ true
    → ((after_beats cfg k w).health ≡ healthy) × ((after_beats cfg k w).is_partitioned ≡ true)
unfolding after_beats apply_heartbeat_success
after_beats-keep_mark cfg zero w h m = (h, m)
after_beats-keep_mark cfg (suc k) w h m = ground (arith, after_beats-keep_mark cfg k w h m)
