-- ===== src/Heartbeat/Silence.antt =====
-- internal/heartbeat/timeout_monitor.go: what one pass of the monitor does to the workers.
use almichot_cloud.Prelude.{
  ℤ, ◌≡◌, refl, false, some, List, [], ◌∷◌, In, here, there, arith, time_sub, Option-cases, inl,
  inr, ap,
}
use almichot_cloud.Workers.Model.{Worker, WorkerHealth, is_unreachable, health_eq}
use almichot_cloud.Workers.Health.{HealthStateMachineConfig, evaluate_health_transition}
use almichot_cloud.Workers.Registry.{list_workers}
use almichot_cloud.Heartbeat.{
  HealthTransition, Cluster, Clock, verdict, transition_of, apply_transition, check_all,
  check_workers,
}

-- What a reported transition says of a listed worker.
pub record IsReport (cfg : HealthStateMachineConfig) (now : ℤ) (t : HealthTransition) (w : Worker)
    : Type 0 where
  pub same_worker : (t.worker_id ≡ w.id) × (t.worker_key ≡ w.worker_key)
  pub watched : (w.is_partitioned ≡ false) × (is_unreachable w.health ≡ false)
  pub is_change : (t.old_health ≡ w.health) × (health_eq t.new_health t.old_health ≡ false)
  pub last : ℤ
  pub had_beat : w.last_beat_at ≡ some last
  pub by_silence :
      evaluate_health_transition w.health (time_sub now last) cfg ≡ (t.new_health, t.missed_beats)

verdict-IsReport :
    (cfg : HealthStateMachineConfig) (c : Clock) (w : Worker) (v : WorkerHealth × ℤ)
    → verdict cfg c.tick w ≡ some v
    → IsReport cfg c.tick (transition_of c w v) w
unfolding verdict
verdict-IsReport cfg c w v h = elim (Option-cases w.last_beat_at) [
  | inl e ↦ absurd (ground arith)
  | inr (last, e) ↦ record {
    same_worker = (refl, refl);
    watched = (ground arith, ground arith);
    is_change = (refl, ground arith);
    last = last;
    had_beat = e;
    by_silence = ground arith;
  }
]

module _ (cfg : HealthStateMachineConfig) (c : Clock) where
  check_all-reports :
      (ws : List Worker) (s : Cluster) (t : HealthTransition)
      → In t (check_all cfg c ws s).0
      → (w : Worker) × In w ws × IsReport cfg c.tick t w
  unfolding check_all
  check_all-reports [] s t i = elim i [ ]
  check_all-reports (w ∷ ws) s t i = elim (Option-cases (verdict cfg c.tick w)) [
    | inl e ↦ let (x, j, r) = check_all-reports ws s t (rw (e, check_all) at i) in (x, there j, r)
    | inr (v, e) ↦
        first v e (rw (e, check_all) at i) (check_all-reports ws (apply_transition c w v.0 s) t)
  ]
    where
      first :
          (v : WorkerHealth × ℤ)
          → verdict cfg c.tick w ≡ some v
          → In t (transition_of c w v ∷ (check_all cfg c ws (apply_transition c w v.0 s)).0)
          → (In t (check_all cfg c ws (apply_transition c w v.0 s)).0
              → (x : Worker) × In x ws × IsReport cfg c.tick t x)
          → (x : Worker) × In x (w ∷ ws) × IsReport cfg c.tick t x
      first v e (here o) more = (w, here refl, rw o (verdict-IsReport cfg c w v e))
      first v e (there j) more = let (x, k, r) = more j in (x, there k, r)

  check_all_complete :
      (ws : List Worker) (s : Cluster) (w : Worker) (v : WorkerHealth × ℤ)
      → In w ws
      → verdict cfg c.tick w ≡ some v
      → In (transition_of c w v) (check_all cfg c ws s).0
  unfolding check_all
  check_all_complete [] s w v i h = elim i [ ]
  check_all_complete (x ∷ xs) s w v (here o) h =
      let e : verdict cfg c.tick x ≡ some v = rw (← o) h in
      rw (e, check_all) (here (ap (λ (y : Worker). transition_of c y v) o))
  check_all_complete (x ∷ xs) s w v (there j) h = elim (Option-cases (verdict cfg c.tick x)) [
    | inl e ↦ rw (e, check_all) (check_all_complete xs s w v j h)
    | inr (u, e) ↦
        rw (e, check_all) (there (check_all_complete xs (apply_transition c x u.0 s) w v j h))
  ]

-- Every transition that a pass reports is that of a registered worker which is neither partitioned
-- nor unreachable, and it is a change to what the silence since its last heartbeat means.
pub check_workers-reports :
    (cfg : HealthStateMachineConfig) (c : Clock) (s : Cluster) (t : HealthTransition)
    → In t (check_workers cfg c s).0
    → (w : Worker) × In w (list_workers s.registry) × IsReport cfg c.tick t w
unfolding check_workers
check_workers-reports cfg c s t i = check_all-reports cfg c (list_workers s.registry) s t i

-- A pass reports every registered worker that is neither partitioned nor unreachable, has sent a
-- heartbeat, and whose health is not what its silence means.
pub check_workers_complete :
    (cfg : HealthStateMachineConfig) (c : Clock) (s : Cluster) (w : Worker) (last : ℤ)
    → In w (list_workers s.registry)
    → w.is_partitioned ≡ false
    → is_unreachable w.health ≡ false
    → w.last_beat_at ≡ some last
    → health_eq (evaluate_health_transition w.health (time_sub c.tick last) cfg).0 w.health ≡ false
    → let v = evaluate_health_transition w.health (time_sub c.tick last) cfg in
      In (transition_of c w v) (check_workers cfg c s).0
unfolding check_workers verdict
check_workers_complete cfg c s w last i p u b d =
    check_all_complete cfg c (list_workers s.registry) s w _ i (ground arith)
