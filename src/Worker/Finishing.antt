-- ===== src/Worker/Finishing.antt =====
-- `WorkerRuntime._finish`, `_finalize` and the end of `run_once` (`task_engine/worker.py`).
use media_sync.Prelude.{
  ℕ, ◌+◌, String, Bool, true, false, ◌&&◌, ◌||◌, not, Option, none, some, if◌then◌else◌, ltb, holds,
  coalesce, text_eq,
}
use media_sync.Tasks.Status.{TaskStatus, pending, cancel_requested, RunStatus, status_eq}
use media_sync.Tasks.Json.{is_continuation}
use media_sync.Tasks.Model.{Task}
use media_sync.Tasks.Transitions.{value_error, ownership_lost, invalid_outcome}
use media_sync.Tasks.Session.{ok, err, M, ◌>>=◌, ◌>>◌, guard, pure, get, expect, find_task}
use media_sync.Tasks.Repository.Finish.{FinishArgs, finish_run}
use media_sync.Worker.Backoff.{delay_for, bounded}
use media_sync.Worker.Outcome.{OutcomeStatus, outcome_eq, TaskOutcome, plain_outcome}
use media_sync.Worker.Runtime.{Config, ClaimedExecution}

-- What `_finish` makes of an outcome.
pub record FinishPlan : Type 0 where
  pub task_status : TaskStatus
  pub run_status : RunStatus
  pub next_attempt_at : Option ℕ

abbrev pub is_settled : OutcomeStatus → Bool
is_settled s = outcome_eq s OutcomeStatus.success || outcome_eq s OutcomeStatus.cancelled

-- A download that was asked to stop counts as cancelled, unless it succeeded.
unfoldable pub reconcile_outcome : Task → TaskOutcome → TaskOutcome
reconcile_outcome t o =
    if status_eq t.status cancel_requested && text_eq t.type "download" && not (is_settled o.status)
    then plain_outcome OutcomeStatus.cancelled "下载已取消"
    else o

-- `outcome.retry_after or timedelta(seconds=1)`: a positive duration is truthy.
abbrev pub one_second : ℕ
one_second = 1_000_000

-- The plan of a retry: the delay is the outcome's or the backoff's, cut off at the limit.
unfoldable pub plan_retry : Config → ℕ → Task → TaskOutcome → M FinishPlan
plan_retry c now t o =
    if ltb t.max_retries (t.retry_count + 1)
    then pure (record {
      task_status = TaskStatus.failed;
      run_status = RunStatus.failed;
      next_attempt_at = none;
    })
    else (do
      delay ←
          expect (bounded c.backoff (coalesce o.retry_after (delay_for c.backoff t.retry_count)))
            value_error
      pure (record {
        task_status = TaskStatus.retry;
        run_status = RunStatus.failed;
        next_attempt_at = some (now + delay);
      }))

abbrev pub plain_plan : TaskStatus → RunStatus → FinishPlan
plain_plan status run_status = record {
  task_status = status;
  run_status = run_status;
  next_attempt_at = none;
}

-- The branches of `_finish` on the outcome's status.
unfoldable pub plan_finish : Config → ℕ → Task → TaskOutcome → OutcomeStatus → M FinishPlan
unfolding plan_retry
plan_finish c now t o OutcomeStatus.deferred = do
  guard (is_continuation o.metrics) invalid_outcome
  pure (record {
    task_status = pending;
    run_status = RunStatus.success;
    next_attempt_at = some (now + coalesce o.retry_after one_second);
  })
plan_finish c now t o OutcomeStatus.retry = plan_retry c now t o
plan_finish c now t o OutcomeStatus.waiting_credential =
    pure (plain_plan TaskStatus.waiting_credential RunStatus.blocked)
plan_finish c now t o OutcomeStatus.success = pure (plain_plan TaskStatus.success RunStatus.success)
plan_finish c now t o OutcomeStatus.failed = pure (plain_plan TaskStatus.failed RunStatus.failed)
plan_finish c now t o OutcomeStatus.cancelled =
    pure (plain_plan TaskStatus.cancelled RunStatus.cancelled)

-- The arguments of `finish_run`.
abbrev pub finish_args :
    Config → ClaimedExecution → ℕ → TaskStatus → TaskOutcome → ℕ → FinishPlan → FinishArgs
finish_args c claimed now expected o duration_ms plan = record {
  worker_id = c.worker_id;
  lock_token = claimed.lock_token;
  expected_task_status = expected;
  task_status = plan.task_status;
  run_status = plan.run_status;
  finished_at = some now;
  duration_ms = some duration_ms;
  result_summary = o.summary;
  error_code = o.error_code;
  error_message = o.error_message;
  metrics = o.metrics;
  blocked_reason = o.blocked_reason;
  next_attempt_at = plan.next_attempt_at;
  consume_retry_budget =
      outcome_eq o.status OutcomeStatus.retry || outcome_eq o.status OutcomeStatus.failed;
}

-- `_finish`; `clock` is the moment at which `finish_run` reads the clock again.
unfoldable pub finish : Config → ClaimedExecution → TaskOutcome → ℕ → ℕ → ℕ → M TaskStatus
finish c claimed outcome duration_ms now clock = do
  let task_id = claimed.invocation.task_id
  s ← get
  t ← expect (find_task task_id s.tasks) (ownership_lost task_id c.worker_id)
  guard (holds t.locked_by c.worker_id && holds t.lock_token claimed.lock_token)
      (ownership_lost task_id c.worker_id)
  let o = reconcile_outcome t outcome
  guard (not (status_eq t.status cancel_requested && not (is_settled o.status))) invalid_outcome
  plan ← plan_finish c now t o o.status
  (task, run) ←
      finish_run clock t.id claimed.invocation.task_run_id
        (finish_args c claimed now t.status o duration_ms plan)
  pure task.status

pub data CycleStatus : Type 0 where
  idle paused completed lost : CycleStatus

pub record CycleResult : Type 0 where
  pub status : CycleStatus
  pub recovered_count : ℕ
  pub task_id : Option ℕ
  pub task_status : Option TaskStatus

abbrev pub lost_result : ClaimedExecution → ℕ → CycleResult
lost_result claimed recovered_count = record {
  status = lost;
  recovered_count = recovered_count;
  task_id = some claimed.invocation.task_id;
  task_status = none;
}

-- `_finalize`: a lost ownership is an outcome of the cycle, any other exception goes on. A raise
-- rolls the transaction back, so the tables are those of before.
unfoldable pub finalize : Config → ClaimedExecution → TaskOutcome → ℕ → ℕ → ℕ → ℕ → M CycleResult
finalize c claimed outcome duration_ms recovered_count now clock s =
    elim (finish c claimed outcome duration_ms now clock s) [
      | ok (status, s') ↦ ok (
        record {
          status = completed;
          recovered_count = recovered_count;
          task_id = some claimed.invocation.task_id;
          task_status = some status;
        },
        s',
      )
      | err (ownership_lost i w) ↦ ok (lost_result claimed recovered_count, s)
      | err e ↦ err e
    ]

-- How the handler ended, and whether a heartbeat lost the ownership while it ran. The message that
-- the source formats from the task's type or the exception's class is an argument.
pub data HandlerEnd : Type 0 where
  unsupported : (message : String) → HandlerEnd
  returned : TaskOutcome → (ownership_was_lost : Bool) → HandlerEnd
  raised : (message : String) → (ownership_was_lost : Bool) → HandlerEnd

-- The outcome of a task that no handler knows, and that of a handler that raises.
abbrev pub failed_outcome : String → String → String → TaskOutcome
failed_outcome summary code message =
    let o = plain_outcome OutcomeStatus.failed summary in
    record o { error_code = some code; error_message = some message }

-- `run_once` from the end of the handler on. While it ran, other transactions may have changed the
-- tables, so this starts from the tables of that moment.
unfoldable pub conclude : Config → ClaimedExecution → HandlerEnd → ℕ → ℕ → ℕ → ℕ → M CycleResult
conclude c claimed (unsupported message) duration_ms recovered_count now clock =
    finalize c claimed
      (failed_outcome "No compatible task handler is registered" "UNSUPPORTED_TASK_HANDLER" message)
      0 recovered_count now clock
conclude c claimed (returned outcome true) duration_ms recovered_count now clock =
    pure (lost_result claimed recovered_count)
conclude c claimed (returned outcome false) duration_ms recovered_count now clock =
    finalize c claimed outcome duration_ms recovered_count now clock
conclude c claimed (raised message true) duration_ms recovered_count now clock =
    pure (lost_result claimed recovered_count)
conclude c claimed (raised message false) duration_ms recovered_count now clock =
    finalize c claimed
      (failed_outcome "Task handler raised an exception" "TASK_HANDLER_EXCEPTION" message)
      duration_ms recovered_count now clock
