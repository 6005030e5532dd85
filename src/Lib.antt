-- ===== src/Lib.antt =====
-- Nebula: a control plane that runs projects as containers on a cluster of workers.
--
-- The program's parts and how they interact. Workers register and send heartbeats; the registry keeps
-- them in a cache in front of a repository. The timeout monitor judges the silence of each worker and,
-- when one is unhealthy, has the service registry evict its endpoints, which takes their routes out of
-- the load balancer. The scheduler places a workload on a registered worker. A deployment walks
-- through a state machine; after a crash of the control plane the recovery fails what was in flight.
-- The reconciliation compares the desired instances with the containers that run, an orphan policy
-- decides what is stopped, and a repair recreates what is missing. The autoscaler computes how many
-- replicas a metric asks for. The deployment service ties these together: it creates, scales, stops and
-- rolls back deployments on the repositories, the registry, the scheduler and the load balancer. Several
-- control planes elect a leader through a lock with a lease; a service that does not lead refuses to
-- deploy.
--
-- Files and the code that they model:
--   Prelude            Boolean tests, lists, Go maps with string keys, Go's 64-bit int,
--                      decimal and trimmed text
--   Workers/Model      internal/workers/model.go, schedulability.go, drain.go
--   Workers/Health     internal/workers/health.go
--   Workers/Repository internal/workers/repository.go (MemoryWorkerRepository)
--   Workers/Registry, Workers/Registration, Workers/Steps, Workers/Access
--                      internal/workers/registry.go: the operations, Register, the states they reach,
--                      what a reader gets
--   Scheduler/Filter, Scheduler/Rank, Scheduler/Select
--                      internal/scheduler/filter.go, rank.go, scheduler.go
--   Balancer           internal/loadbalancer/router.go
--   Discovery          internal/discovery/service_registry.go
--   Heartbeat          internal/heartbeat/timeout_monitor.go (CheckWorkers)
--   Deployments/Lifecycle
--                      internal/deployments/model.go, state_machine.go
--   Deployments/Repository, Deployments/Instances
--                      internal/deployments/repository.go (the two memory repositories)
--   Deployments/Releases, Deployments/Events
--                      internal/deployments/repository.go (the release repository), events.go
--   Deployments/Recovery
--                      internal/deployments/recovery.go
--   Deployments/Service
--                      internal/deployments/service.go: the state of the service; its children
--                      Dispatching (scheduleAndDispatchInstances), Creation (CreateAndDeploy), Stopping,
--                      RollingBack and Scaling hold the operations, and History, Rounds, Outcome,
--                      Obtained, Conformance, Recorded, Spared, Previous, Restored, Retired, Removal,
--                      Removed, Growth, Grown and Scaled what they guarantee
--   Election           internal/ha/election.go: the lock in memory and the elector; Election/System is the
--                      interleaving of several electors
--   Reconcile/Diff, Reconcile/Orphan, Reconcile/Repair
--                      internal/reconcile/diff.go, orphan_policy.go, repair.go
--   Images, Images/Policy, Images/Server
--                      internal/registry/client.go (MemoryRegistry), digest.go, gc.go, gc_policy.go,
--                      server.go; Collected, Steps, Policy/Cycle and Server/Leak hold what they guarantee
--   Autoscaler, Autoscaler/Evaluate
--                      internal/autoscaler/policy.go, autoscaler.go (Evaluate)
--   Tests              concrete runs, and each theorem applied where its hypotheses hold
--
-- How code becomes definitions. A method that changes state is a function from the state to its result
-- and the new state; a method of the source `SetPartitioned` is `set_partitioned` here. Where two Go
-- maps point at one struct, the structs stand in a list `heap` and the maps hold positions in it, so
-- that a write through one map is seen through the other. A Go map is an association list, and the
-- order of its entries stands for the order in which a `range` loop visits them. Times are nanoseconds,
-- a zero time is `none`, and each reading of the clock is an argument, as is each UUID that is drawn.
-- `int` and `time.Duration` are integers whose results wrap at 64 bits (Prelude/GoInt); the load
-- balancer's counter is a number modulo 2^64. Mutexes are held over each operation, so an operation is
-- one step; HeartbeatAt alone writes to the repository after it has let the mutex go, which is one step
-- with the rest here. Log lines are left out.
--
-- Parameters. `float64` is a record of the operations that the code applies (Scheduler.Rank.Floats,
-- Autoscaler.MetricFloats); nothing is assumed of them. `url.Parse`, the provider of instance counts,
-- the metrics provider, the worker clients and their factory, the builder, the image registry, the signer,
-- the secret store, SHA-256 and the crash hook are functions that may return anything.
-- `sort.SliceStable` is the insertion sort that it runs on up to 20 elements. There is no fuel: every
-- loop of the modelled code runs over a list or counts up to a number, but the one that writes a number in
-- decimal, which has as many rounds as the number and one more.
--
-- Not modelled: the HTTP and gRPC handlers, the command line, configuration, logs and metrics, the
-- Postgres repositories, Docker builds and the container runtime, PKI, secrets and the HTTP side of the
-- image registry, which are I/O or library code; the reconcile loop and the autoscaler's EvaluateAndScale; the lock in
-- Postgres, the client factories of the deployment service; in the load balancer the way from a request to its project; in the
-- lifecycle a status that is none of the declared constants.
pub mod Prelude
pub mod Workers
pub mod Scheduler
pub mod Balancer
pub mod Discovery
pub mod Heartbeat
pub mod Deployments
pub mod Reconcile
pub mod Autoscaler
pub mod Election
pub mod Images
pub mod Tests
