-- ===== src/Tasks/Repository/Finish.antt =====
-- `TaskRepository.finish_run`.
use media_sync.Prelude.{
  ℕ, String, ◌+◌, Bool, false, ◌&&◌, ◌||◌, not, Option, none, some, ◌==◌, if◌then◌else◌, is_empty,
  is_some, coalesce,
}
use media_sync.Tasks.Status.{
  TaskStatus, pending, running, retry, waiting_credential, success, failed, cancelled, RunStatus,
  status_eq, run_status_eq, is_run_terminal,
}
use media_sync.Tasks.Json.{Fields, is_continuation}
use media_sync.Tasks.Model.{Task, TaskRun}
use media_sync.Tasks.Transitions.{value_error, ownership_lost, run_not_found}
use media_sync.Tasks.Session.{
  M, ◌>>=◌, ◌>>◌, guard, pure, expect, require_task, require_task_run, update_task, update_runs,
}
use media_sync.Tasks.Repository.Values.{
  task_transition_values, apply_values, release, validate_transition, written,
}
use media_sync.Tasks.Repository.Claim.{is_held, is_owners_run}

-- The keyword arguments of `finish_run`.
pub record FinishArgs : Type 0 where
  pub worker_id : String
  pub lock_token : String
  pub expected_task_status : TaskStatus
  pub task_status : TaskStatus
  pub run_status : RunStatus
  pub finished_at : Option ℕ
  pub duration_ms : Option ℕ
  pub result_summary : Option String
  pub error_code : Option String
  pub error_message : Option String
  pub metrics : Option Fields
  pub blocked_reason : Option String
  pub next_attempt_at : Option ℕ
  pub consume_retry_budget : Bool

-- TASK_TO_RUN_TERMINAL_STATUS
unfoldable pub task_to_run_status : TaskStatus → Option RunStatus
task_to_run_status pending = some RunStatus.success
task_to_run_status success = some RunStatus.success
task_to_run_status failed = some RunStatus.failed
task_to_run_status retry = some RunStatus.failed
task_to_run_status waiting_credential = some RunStatus.blocked
task_to_run_status cancelled = some RunStatus.cancelled
task_to_run_status _ = none

abbrev pub is_run_status : Option RunStatus → RunStatus → Bool
is_run_status none r = false
is_run_status (some e) r = run_status_eq e r

-- The test that refuses a continuation.
abbrev pub is_bad_continuation : FinishArgs → Bool
is_bad_continuation a =
    status_eq a.task_status pending
    && (not (status_eq a.expected_task_status running)
        || not (is_some a.next_attempt_at)
        || not (is_continuation a.metrics)
        || a.consume_retry_budget)

-- The statuses whose outcome is no attempt that failed.
abbrev pub keeps_budget : TaskStatus → Bool
keeps_budget s = status_eq s success || status_eq s waiting_credential || status_eq s cancelled

-- The checks of `finish_run` before it touches the database.
unfoldable pub validate_finish : FinishArgs → M (Unit {0})
unfolding validate_transition
validate_finish a = do
  guard (not (is_empty a.worker_id)) value_error
  guard (not (is_empty a.lock_token)) value_error
  validate_transition a.expected_task_status a.task_status
  guard (not (is_bad_continuation a)) value_error
  guard
      (is_run_status (task_to_run_status a.task_status) a.run_status
        && is_run_terminal a.run_status)
      value_error
  guard (not (a.consume_retry_budget && keeps_budget a.task_status)) value_error

-- The task's columns at the end of a run.
unfoldable pub finish_row : FinishArgs → ℕ → Task → Task
unfolding task_transition_values apply_values release
finish_row a checked_at t =
    let values =
      task_transition_values a.task_status (coalesce a.finished_at checked_at) a.blocked_reason
        a.error_code a.error_message a.next_attempt_at in
    let t' = release checked_at (apply_values values t) in
    record t' { retry_count = if a.consume_retry_budget then t.retry_count + 1 else t.retry_count }

-- The run's columns at its end.
unfoldable pub finish_run_row : FinishArgs → ℕ → TaskRun → TaskRun
finish_run_row a checked_at r = record r {
  status = a.run_status;
  finished_at = some (coalesce a.finished_at checked_at);
  duration_ms = a.duration_ms;
  result_summary = a.result_summary;
  error_code = a.error_code;
  error_message = a.error_message;
  updated_at = checked_at;
  metrics = written a.metrics r.metrics;
}

abbrev pub is_finishable : FinishArgs → ℕ → Task → Bool
is_finishable a checked_at t =
    status_eq t.status a.expected_task_status && is_held a.worker_id a.lock_token checked_at t

-- `TaskRepository.finish_run`; `clock` is the moment at which ownership is checked.
unfoldable pub finish_run : ℕ → ℕ → ℕ → FinishArgs → M (Task × TaskRun)
finish_run clock task_id task_run_id a = do
  validate_finish a
  hit ← update_task task_id (is_finishable a clock) (finish_row a clock)
  i ← expect hit (ownership_lost task_id a.worker_id)
  done ←
      update_runs (λ r. (r.id == task_run_id) && is_owners_run task_id a.worker_id a.lock_token r)
        (finish_run_row a clock)
  run_id ← expect done run_not_found
  task ← require_task i
  run ← require_task_run run_id
  pure (task, run)
