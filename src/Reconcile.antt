-- ===== src/Reconcile.antt =====
-- internal/reconcile: desired instances against the containers that the workers report.
pub mod Diff
pub mod Orphan
pub mod Repair
