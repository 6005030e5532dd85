-- ===== src/Tests.antt =====
-- Runs of the definitions on concrete data, and each theorem applied where its hypotheses hold.
mod Data
pub mod Cluster
pub mod Placement
pub mod Traffic
pub mod Releases
pub mod Rollout
pub mod Leadership
pub mod Images
