-- ===== src/Updater.antt =====
-- The updater: the process that replaces the appliance's container, and what it keeps on disk
-- (`services/update_snapshot_service.py`, `updater_forward_v2.py`, `updater_rollback_v2.py`).
pub mod Text
pub mod Errors
pub mod Handoff
pub mod Docker
pub mod Identity
pub mod Checkpoint
pub mod Journal
pub mod Candidate
pub mod Machine
pub mod Forward
pub mod Rollback
pub mod Examples
