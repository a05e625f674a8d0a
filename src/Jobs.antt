-- ===== src/Jobs.antt =====
-- The scheduler of internal/jobs/jobs.go over the tables `job` and `job_dependency`.
pub mod Types
pub mod Enqueue
pub mod Dependencies
pub mod Reconcile
pub mod Claim
pub mod Lease
pub mod Finish
pub mod Cancel
pub mod Recover
pub mod Requeue
pub mod Invariant
pub mod Scheduler
pub mod Fencing
