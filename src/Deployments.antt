-- ===== src/Deployments.antt =====
-- internal/deployments: the deployments of the control plane, their lifecycle, their store, and
-- their recovery after a crash.
pub mod Lifecycle
pub mod Repository
pub mod Instances
pub mod Recovery
pub mod Releases
pub mod Events
pub mod Service
