-- ===== src/Tasks/Repository.antt =====
-- `TaskRepository` (`backend/app/repositories/tasks.py`), one module for each group of operations.
pub mod Values
pub mod Create
pub mod Claim
pub mod Finish
pub mod Recover
pub mod Legacy
