-- ===== src/Worker.antt =====
-- The worker (`backend/app/task_engine/worker.py`, `handlers.py`): one cycle recovers expired leases,
-- claims a task, runs its handler and records the outcome.
pub mod Backoff
pub mod Outcome
pub mod Registry
pub mod Runtime
pub mod Finishing
pub mod Verdict
pub mod Cancellation
pub mod Stopping
pub mod Cycle
pub mod Examples
