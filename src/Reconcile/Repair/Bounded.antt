-- ===== src/Reconcile/Repair/Bounded.antt =====
-- internal/reconcile/repair.go, RepairMissing: when it runs a container, and which.
use almichot_cloud.Prelude.{
  ℤ, String, ◌≡◌, refl, sym, ap, ◌<ℤ◌, leb_ℤ, Bool-cases, inl, inr, In, here, there, lookup,
  lookup-insert, Result, ok, err, arith, some, str_eq,
}
use almichot_cloud.Workers.Model.{Worker}
use almichot_cloud.Scheduler.Select.{SelectError}
use almichot_cloud.Deployments.Instances.{Instances}
use almichot_cloud.Reconcile.Diff.{DesiredInstance}
use almichot_cloud.Reconcile.Repair.{
  RunRequest, RunClient, RepairService, run_labels, run_request, repair_with, repair_on,
  target_worker, repair_missing,
}

-- The only request there may be is the one for the missing instance, to the target worker.
repair_on-runs :
    (now : ℤ) (s : RepairService) (missing : DesiredInstance) (t : Instances)
    → (r : Result SelectError Worker) (w : Worker) (q : RunRequest)
    → In (w, q) (repair_on now s missing t r).runs
    → (r ≡ ok w) × (q ≡ run_request missing)
repair_on-runs now s missing t (err e) w q i = elim i [ ]
repair_on-runs now s missing t (ok v) w q i =
    let (e, same) = with_client (s.client_factory v) i in (ap ok e, same)
  where
    with_client :
        (c : Result String RunClient)
        → In (w, q) (repair_with now missing v t c).runs
        → (v ≡ w) × (q ≡ run_request missing)
    with_client (err e) i = elim i [ ]
    with_client (ok client) (here e) =
        (ap (λ (x : Worker × RunRequest). x.0) (sym e), ap (λ (x : Worker × RunRequest). x.1) e)
    with_client (ok client) (there i) = elim i [ ]

run_labels-instance :
    (missing : DesiredInstance)
    → lookup "nebula.instance_id" (run_labels missing) ≡ some missing.instance_key
run_labels-instance missing = elim (Bool-cases (str_eq missing.deployment_id "")) [
  | inl b ↦ rw (b, lookup-insert) refl
  | inr b ↦ rw (b, lookup-insert, lookup-insert) refl
]

-- A container is run only while fewer instances run than are desired; the request goes to the
-- worker that was chosen, names the missing instance and carries its key in the label that the
-- reconciliation reads.
pub repair_missing-runs :
    (now : ℤ) (s : RepairService) (missing : DesiredInstance) (running desired : ℤ) (t : Instances)
    → (w : Worker) (q : RunRequest)
    → In (w, q) (repair_missing now s missing running desired t).runs
    → (running <ℤ desired)
      × (target_worker s missing ≡ ok w)
      × (q.instance_id ≡ missing.instance_key)
      × (lookup "nebula.instance_id" q.labels ≡ some missing.instance_key)
unfolding repair_missing
repair_missing-runs now s missing running desired t w q i =
    elim (Bool-cases (leb_ℤ desired running)) [
      | inl b ↦ elim (rw b at i) [ ]
      | inr b ↦
          let (e, same) =
            repair_on-runs now s missing t (target_worker s missing) w q (rw b at i) in
          (
            ground arith,
            e,
            ap (λ (x : RunRequest). x.instance_id) same,
            rw same (run_labels-instance missing),
          )
    ]
