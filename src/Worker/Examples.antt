-- ===== src/Worker/Examples.antt =====
-- The theorems of the worker applied to the rows of `Tasks/Tests.antt` and to concrete settings.
use media_sync.Prelude.{
  ℕ, ◌*◌, ◌^◌, ◌≤◌, String, ◌≡◌, refl, true, false, Option, none, some, [], ◌∷◌, min, text_eq, ◌&&◌,
  ◌==◌,
}
use media_sync.Tasks.Status.{TaskStatus, status_eq}
use media_sync.Tasks.Rows.{active_runs}
use media_sync.Tasks.Repository.Claim.{claim_row, is_held}
use media_sync.Tasks.Model.{Store}
use media_sync.Tasks.Session.{ok, find_task}
use media_sync.Tasks.Tests.{one_task, one_claim, claimed_task, claimed_run, one_claim-Inv}
use media_sync.Worker.Backoff.{default_backoff, delay_for}
use media_sync.Worker.Backoff.Bounds.{delay_for-exact, delay_for_bounds}
use media_sync.Worker.Outcome.{is_valid_outcome, OutcomeStatus, TaskOutcome, from_task}
use media_sync.Worker.Registry.{Entry, resolve, register, resolve-register}
use media_sync.Worker.Runtime.{Config, ClaimedExecution, recover_and_claim}
use media_sync.Worker.Finishing.{finish}
use media_sync.Worker.Verdict.{verdict, finish-total}
use media_sync.Worker.Cycle.{Quietly, gated-Quietly}
use media_sync.Tasks.Session.{put_task}
use media_sync.Tasks.Session.{max_run_number}
use media_sync.Tasks.Repository.Recover.{list_expired_leases}
use media_sync.Worker.Runtime.{recover_all}
use media_sync.Tasks.Repository.Recover.{to_leases}
use media_sync.Prelude.Sorting.{sort}
use media_sync.Tasks.Repository.Claim.{claim_next}
use media_sync.Tasks.Repository.Values.{validate_owner_arguments}
use media_sync.Tasks.Repository.Claim.{candidate}
use media_sync.Prelude.Sorting.{insert_sorted}
use media_sync.Tasks.Repository.Claim.{claim_task}
use media_sync.Tasks.Session.{update_task}
use media_sync.Tasks.Session.{require_task}
use media_sync.Tasks.Repository.Create.{create_run}
use media_sync.Tasks.Repository.Create.{append_task_run}

delay_for-exact_example : delay_for default_backoff 3 ≡ min (30_000_000 * 2 ^ 3) 900_000_000
delay_for-exact_example = delay_for-exact default_backoff 3 refl refl

delay_for_bounds_example :
    (30_000_000 ≤ delay_for default_backoff 7) × (delay_for default_backoff 7 ≤ 900_000_000)
delay_for_bounds_example = delay_for_bounds default_backoff 7 refl

-- Handlers are numbers here.
abbrev scan_entry : Entry ℕ
scan_entry = record { task_type = "scan"; payload_version = 1; handler = 5 }

abbrev transfer_entry : Entry ℕ
transfer_entry = record { task_type = "transfer"; payload_version = 1; handler = 6 }

transfer-registered :
    register "transfer" 1 6 (scan_entry ∷ []) ≡ some (scan_entry ∷ transfer_entry ∷ [])
unfolding register resolve
transfer-registered = refl

resolve-register_example :
    (resolve "transfer" 1 (scan_entry ∷ transfer_entry ∷ []) ≡ some 6)
    × ((other : String) (v : ℕ)
        → text_eq "transfer" other && (1 == v) ≡ false
        → resolve other v (scan_entry ∷ transfer_entry ∷ []) ≡ resolve other v (scan_entry ∷ []))
resolve-register_example = resolve-register "transfer" 1 6 (scan_entry ∷ []) transfer-registered

abbrev pub settings : Config
settings = record {
  worker_id = "worker-a";
  lease_duration = 60;
  heartbeat_interval = 20;
  recovery_limit = 100;
  backoff = default_backoff;
}

abbrev pub scan_claim : ClaimedExecution
scan_claim = record { invocation = from_task claimed_task 1; lock_token = "token-a" }

abbrev retry_outcome : TaskOutcome
retry_outcome = record {
  status = OutcomeStatus.retry;
  summary = none;
  error_code = some "PROVIDER_BUSY";
  error_message = none;
  metrics = none;
  retry_after = none;
  blocked_reason = none;
}

outcome_valid : is_valid_outcome retry_outcome ≡ true
unfolding is_valid_outcome
outcome_valid = refl

task_found : find_task scan_claim.invocation.task_id one_claim.tasks ≡ some claimed_task
unfolding find_task from_task put_task claim_row
task_found = refl

task_runs : status_eq claimed_task.status TaskStatus.running ≡ true
unfolding claim_row
task_runs = refl

task_held : is_held settings.worker_id scan_claim.lock_token 120 claimed_task ≡ true
unfolding claim_row
task_held = refl

one_run : active_runs scan_claim.invocation.task_id one_claim.runs ≡ claimed_run ∷ []
unfolding active_runs from_task claim_row max_run_number
one_run = refl

run_named : claimed_run.id ≡ scan_claim.invocation.task_run_id
unfolding from_task
run_named = refl

finish-total_example :
    (s' : Store) × (finish settings scan_claim retry_outcome 20 110 120 one_claim
      ≡ ok (verdict claimed_task OutcomeStatus.retry, s'))
finish-total_example =
    finish-total settings scan_claim retry_outcome 20 110 120 one_claim claimed_task claimed_run
      refl refl refl outcome_valid refl refl one_claim-Inv task_found task_runs task_held one_run
      run_named

gated-cycle :
    recover_and_claim settings 100 "token-a" true one_task ≡ ok ((none, 0, true), one_task)
unfolding recover_and_claim list_expired_leases recover_all to_leases sort
gated-cycle = refl

gated-Quietly_example :
    ◌≡◌ {A = Option ClaimedExecution} none none × Quietly (λ d. d) one_task one_task
gated-Quietly_example =
    gated-Quietly (λ d. d) settings 100 "token-a" (none, 0, true) one_task one_task gated-cycle

open-cycle :
    recover_and_claim settings 100 "token-a" false one_task
    ≡ ok ((some scan_claim, 0, false), one_claim)
unfolding recover_and_claim list_expired_leases recover_all to_leases sort claim_next
    validate_owner_arguments candidate insert_sorted claim_task update_task find_task require_task
    put_task claim_row create_run append_task_run
open-cycle = refl
