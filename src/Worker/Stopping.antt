-- ===== src/Worker/Stopping.antt =====
-- The theorem on cancellation applied to a running task that was asked to stop.
use media_sync.Prelude.{none, [], ◌∷◌}
use media_sync.Tasks.Status.{running, cancel_requested}
use media_sync.Tasks.Model.{Task, Store}
use media_sync.Tasks.Repository.Values.{TransitionArgs, transition_row}
use media_sync.Tasks.Tests.{one_claim, claimed_task}
use media_sync.Worker.Outcome.{OutcomeStatus, TaskOutcome, plain_outcome}

abbrev stop_args : TransitionArgs
stop_args = record {
  expected_status = running;
  target_status = cancel_requested;
  occurred_at = none;
  blocked_reason = none;
  error_code = none;
  error_message = none;
  next_attempt_at = none;
}

abbrev stopping_task : Task
stopping_task = transition_row stop_args 115 claimed_task

abbrev stopping_store : Store
stopping_store = record one_claim { tasks = stopping_task ∷ [] }

abbrev stopped_outcome : TaskOutcome
stopped_outcome = plain_outcome OutcomeStatus.cancelled "stopped"
