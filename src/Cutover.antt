-- ===== src/Cutover.antt =====
-- The cutover from the time before leases (`backend/app/services/legacy_task_reconciliation.py`): one
-- transaction that reconciles every task.
pub mod Service
pub mod Orphans
pub mod Keeps
pub mod Examples
