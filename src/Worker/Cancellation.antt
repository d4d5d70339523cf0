-- ===== src/Worker/Cancellation.antt =====
-- What `_finish` decides for a task that was asked to stop.
use media_sync.Prelude.{ℕ, ◌≡◌}
use media_sync.Tasks.Status.{cancel_requested}
use media_sync.Tasks.Model.{Task, Store}
use media_sync.Tasks.Session.{ok}
use media_sync.Tasks.Repository.Finish.{validate_finish}
use media_sync.Worker.Outcome.{TaskOutcome}
use media_sync.Worker.Runtime.{Config, ClaimedExecution}
use media_sync.Worker.Finishing.{FinishPlan, plan_finish, finish_args}
use media_sync.Worker.Verdict.{verdict}

-- The plan of a settled outcome, which `finish_run` accepts for a task that was asked to stop.
record SettledPlan (c : Config) (claimed : ClaimedExecution) (now duration_ms : ℕ) (t : Task)
    (q : TaskOutcome) (s : Store) : Type 0 where
  plan : FinishPlan
  planned : plan_finish c now t q q.status s ≡ ok (plan, s)
  decided : plan.task_status ≡ verdict t q.status
  accepted :
      validate_finish (finish_args c claimed now cancel_requested q duration_ms plan) s ≡ ok (tt, s)
