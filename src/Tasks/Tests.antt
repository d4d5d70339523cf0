-- ===== src/Tasks/Tests.antt =====
-- Runs of the task engine at concrete rows, which show that the hypotheses of its theorems hold.
use media_sync.Prelude.{false, ◌≡◌, refl, none, some, [], ◌∷◌}
use media_sync.Tasks.Status.{pending, running, retry, success, RunStatus}
use media_sync.Tasks.Json.{end}
use media_sync.Tasks.Model.{Task, TaskRun, Store}
use media_sync.Tasks.Session.{ok}
use media_sync.Prelude.Sorting.{sort, insert_sorted}
use media_sync.Tasks.Session.{
  find_task, put_task, update_task, require_task, insert_run, max_run_number, has_run_number,
  find_run, update_runs, put_runs, require_task_run,
}
use media_sync.Tasks.Repository.Values.{validate_owner_arguments, validate_transition}
use media_sync.Tasks.Transitions.{can_transition}
use media_sync.Tasks.Repository.Finish.{
  FinishArgs, validate_finish, task_to_run_status, finish_row, finish_run_row, finish_run,
}
use media_sync.Tasks.Repository.Recover.{
  ExpiredTaskLease, RecoveredTaskLease, recovery_status, recover_row, lost_row, mark_task_run_lost,
  recover_writes, recover_expired_lease,
}
use media_sync.Tasks.Repository.Create.{
  create_task, insert_task, new_run, create_run, append_task_run,
}
use media_sync.Tasks.Invariant.Transition.{IsDraft}
use media_sync.Tasks.Repository.Claim.{claim_row, claim_next, claim_task, candidate, precedes}
use media_sync.Tasks.System.{
  Step, creates, claims, finishes, Reach, here, after, empty_store, Reach-Inv,
}
use media_sync.Tasks.Invariant.{Inv}
use media_sync.Tasks.Queue.{claimed_store, claim_of}

abbrev pub scan_draft : Task
scan_draft = record {
  id = 0;
  account_id = some 1;
  subscription_id = some 7;
  file_id = none;
  type = "scan";
  trigger_type = "manual";
  status = pending;
  priority = 0;
  payload_version = 1;
  payload = end;
  idempotency_key = none;
  retry_count = 0;
  max_retries = 3;
  next_attempt_at = none;
  blocked_reason = none;
  blocked_at = none;
  cancel_requested_at = none;
  locked_by = none;
  lock_token = none;
  locked_at = none;
  lease_until = none;
  last_error_code = none;
  last_error_message = none;
  completed_at = none;
  provider_write_intent_at = none;
  provider_operation_id = none;
  provider_operation_status = none;
  provider_result = none;
  message = none;
  error_code = none;
  attempt_count = 0;
  max_attempts = 3;
  started_at = none;
  finished_at = none;
  created_at = 50;
  updated_at = 50;
}

abbrev pub scan_task : Task
scan_task = record scan_draft { id = 1 }

abbrev pub one_task : Store
one_task = record { tasks = scan_task ∷ []; runs = []; next_task_id = 2; next_run_id = 1 }

abbrev pub one_claim : Store
one_claim = claimed_store "worker-a" "token-a" 100 160 1 one_task scan_task

pub scan-IsDraft : IsDraft scan_draft
scan-IsDraft = record { clear = refl; open_ended = refl; unblocked = refl }

pub task_created : create_task none scan_draft empty_store ≡ ok (scan_task, one_task)
unfolding create_task insert_task
task_created = refl

pub task_claimed :
    claim_next "worker-a" "token-a" 60 100 one_task
    ≡ ok (some (claim_of "worker-a" "token-a" 100 160 1 one_task scan_task), one_claim)
unfolding claim_next validate_owner_arguments candidate sort insert_sorted precedes claim_task
    update_task find_task put_task require_task create_run append_task_run insert_run max_run_number
    has_run_number claim_row find_run
task_claimed = refl

abbrev pub create-step : Step (λ d. d) empty_store one_task
create-step = creates none scan_draft scan_task scan-IsDraft task_created

abbrev pub claim-step : Step (λ d. d) one_task one_claim
claim-step = claims "worker-a" "token-a" 60 100 _ task_claimed

abbrev pub two_steps : Reach (λ d. d) empty_store one_claim
two_steps = after (after here create-step) claim-step

abbrev pub claimed_task : Task
claimed_task = claim_row "worker-a" "token-a" 100 160 scan_task

abbrev pub claimed_run : TaskRun
claimed_run = new_run 1 1 "worker-a" "token-a" 100 (some 100) 1

abbrev pub expired_lease : ExpiredTaskLease
expired_lease = record {
  task_id = 1;
  status = running;
  worker_id = "worker-a";
  lock_token = "token-a";
  lease_until = 160;
  retry_count = 0;
}

-- After the lease has run out and was recovered, and after another worker's claim.
abbrev pub one_recovered : Store
one_recovered = record one_claim {
  tasks = recover_row retry 1 (some 300) 200 claimed_task ∷ [];
  runs = lost_row 200 claimed_run ∷ [];
}

abbrev pub recovered_lease : RecoveredTaskLease
recovered_lease = record {
  task = recover_row retry 1 (some 300) 200 claimed_task;
  task_run = lost_row 200 claimed_run;
  previous_lock_token = "token-a";
}

abbrev pub retried_task : Task
retried_task = recover_row retry 1 (some 300) 200 claimed_task

abbrev pub two_claims : Store
two_claims = claimed_store "worker-b" "token-b" 400 460 1 one_recovered retried_task

pub task_recovered :
    recover_expired_lease expired_lease (some 300) 200 one_claim
    ≡ ok (some recovered_lease, one_recovered)
unfolding recover_expired_lease recovery_status recover_writes mark_task_run_lost update_task
    update_runs put_runs find_task put_task require_task require_task_run find_run claim_row
    recover_row lost_row max_run_number
task_recovered = refl

pub task_reclaimed :
    claim_next "worker-b" "token-b" 60 400 one_recovered
    ≡ ok (some (claim_of "worker-b" "token-b" 400 460 1 one_recovered retried_task), two_claims)
unfolding claim_next validate_owner_arguments candidate sort insert_sorted precedes claim_task
    update_task find_task put_task require_task create_run append_task_run insert_run max_run_number
    has_run_number claim_row find_run recover_row lost_row
task_reclaimed = refl

abbrev pub reclaim-step : Step (λ d. d) one_recovered two_claims
reclaim-step = claims "worker-b" "token-b" 60 400 _ task_reclaimed

pub one_claim-Inv : Inv one_claim
one_claim-Inv = Reach-Inv (λ d. d) two_steps

-- How the worker ends its run.
abbrev pub success_args : FinishArgs
success_args = record {
  worker_id = "worker-a";
  lock_token = "token-a";
  expected_task_status = running;
  task_status = success;
  run_status = RunStatus.success;
  finished_at = none;
  duration_ms = some 20;
  result_summary = none;
  error_code = none;
  error_message = none;
  metrics = none;
  blocked_reason = none;
  next_attempt_at = none;
  consume_retry_budget = false;
}

abbrev pub one_success : Store
one_success = record one_claim {
  tasks = finish_row success_args 120 claimed_task ∷ [];
  runs = finish_run_row success_args 120 claimed_run ∷ [];
}

pub success_validated : validate_finish success_args one_claim ≡ ok (tt, one_claim)
unfolding validate_finish validate_transition can_transition task_to_run_status
success_validated = refl

pub task_finished :
    finish_run 120 1 1 success_args one_claim
    ≡ ok (
      (finish_row success_args 120 claimed_task, finish_run_row success_args 120 claimed_run),
      one_success,
    )
unfolding finish_run validate_finish validate_transition can_transition task_to_run_status
    update_task update_runs put_runs find_task put_task require_task require_task_run find_run
    claim_row finish_row finish_run_row max_run_number
task_finished = refl

abbrev pub finish-step : Step (λ d. d) one_claim one_success
finish-step = finishes 120 1 1 success_args _ task_finished
