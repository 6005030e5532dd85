-- ===== src/Workers.antt =====
-- internal/workers: the workers of the cluster, their health, and the registry that holds them.
pub mod Model
pub mod Health
pub mod Repository
pub mod Registry
pub mod Registration
pub mod Steps
pub mod Access
