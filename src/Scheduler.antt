-- ===== src/Scheduler.antt =====
-- internal/scheduler: placement of a workload, by a filter, a ranking and the choice of the first.
pub mod Filter
pub mod Rank
pub mod Select
