-- ===== src/Updates.antt =====
-- The updates of the appliance: the operation that is on record and the gate that holds the workers
-- back while it replaces the container (`backend/app/repositories/update_operations.py`,
-- `services/update_execution_gate.py`), and what the updater does after a crash
-- (`services/updater_recovery_decision_service.py`).
pub mod Model
pub mod Repository
pub mod System
pub mod Orderly
pub mod History
pub mod Gate
pub mod Recovery
pub mod Examples
