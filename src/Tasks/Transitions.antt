-- ===== src/Tasks/Transitions.antt =====
-- `backend/app/task_engine/transitions.py`: which task statuses may follow which, and the errors
-- that the repository raises.
use media_sync.Prelude.{ℕ, String, Bool, true, false}
use media_sync.Tasks.Status.{
  TaskStatus, pending, running, retry, waiting_credential, cancel_requested, success, failed,
  cancelled,
}

-- The exceptions of `repositories/tasks.py` and `transitions.py`, ValueError with its cause left
-- out, and the IntegrityError of a unique column.
pub data TaskError : Type 0 where
  value_error : TaskError
  invalid_transition : TaskStatus → TaskStatus → TaskError
  task_not_found : ℕ → TaskError
  run_not_found : TaskError
  state_conflict : ℕ → TaskStatus → TaskError
  active_run_exists : ℕ → TaskError
  ownership_required : TaskError
  ownership_lost : ℕ → String → TaskError
  legacy_run_conflict : ℕ → TaskError
  integrity_error : TaskError
  invalid_outcome : TaskError

-- `can_transition`, with the table ALLOWED_TASK_TRANSITIONS as its clauses.
unfoldable pub can_transition : TaskStatus → TaskStatus → Bool
can_transition pending running = true
can_transition pending cancelled = true
can_transition running pending = true
can_transition running success = true
can_transition running failed = true
can_transition running retry = true
can_transition running waiting_credential = true
can_transition running cancel_requested = true
can_transition retry running = true
can_transition retry cancelled = true
can_transition waiting_credential pending = true
can_transition waiting_credential cancelled = true
can_transition cancel_requested cancel_requested = true
can_transition cancel_requested cancelled = true
can_transition cancel_requested success = true
can_transition _ _ = false
