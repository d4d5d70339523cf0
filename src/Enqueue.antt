-- ===== src/Enqueue.antt =====
-- Tasks on request of a user (`backend/app/services/task_enqueue_service.py`).
pub mod Service
pub mod Single
pub mod Examples
