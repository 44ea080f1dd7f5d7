-- ===== src/ExecutionQueue.antt =====
-- backend/app/execution_queue.py: the durable queue. `Status` and `Job` are its data, `Enqueue`,
-- `Claim`, `Cancel` and `Worker` its operations; the other children prove what holds of them.
pub mod Status
pub mod Job
pub mod Enqueue
pub mod Claim
pub mod Cancel
pub mod Worker
pub mod Lifecycle
pub mod Refine
pub mod Runs
pub mod Dedup
pub mod Scheduling
pub mod Caps
pub mod Writes
pub mod Race
pub mod Outcome
pub mod Drain
pub mod Retry
pub mod Reads
mod Tests
