-- ===== src/Tasks/Examples.antt =====
-- The theorems of the task engine applied to the rows of `Tasks/Tests.antt`.
use media_sync.Prelude.{
  ℕ, String, ◌≡◌, ◌≢◌, refl, none, some, ◌∷◌, [], arith, true, ◌++◌, text_eq_iff,
}
use media_sync.Prelude.Sorting.{sort}
use media_sync.Tasks.Status.{running, retry, is_terminal}
use media_sync.Tasks.Model.{Task, TaskRun, Store}
use media_sync.Tasks.Session.{
  ok, find_task, put_task, find_run, max_run_number, require_task, update_task, insert_run,
  require_task_run,
}
use media_sync.Tasks.Repository.Claim.{heartbeat, claim_row}
use media_sync.Tasks.Repository.Create.{create_task, insert_task}
use media_sync.Tasks.Repository.Finish.{FinishArgs, finish_row, finish_run, is_finishable}
use media_sync.Tasks.Repository.Legacy.{
  ReconciledLegacyTask, appended, synthetic_run, reconcile_row, reconcile_legacy_orphan,
  reconcile_run,
}
use media_sync.Tasks.Invariant.{Inv, IsSound}
use media_sync.Tasks.System.{here, after, creates, Reach-Inv}
use media_sync.Tasks.Fencing.{recover-fences}
use media_sync.Tasks.Owner.{finish_run-exclusive}
use media_sync.Tasks.Lifecycle.{Follows, Step-Follows, Reach-terminal}
use media_sync.Tasks.History.{IsRecorded, Step-IsRecorded}
use media_sync.Tasks.Frame.{Touches}
use media_sync.Tasks.Cutover.{reconcile-repairs}
use media_sync.Tasks.Tests.{
  scan_draft, scan-IsDraft, scan_task, one_task, one_claim, create-step, two_steps, claimed_task,
  claimed_run, expired_lease, one_recovered, recovered_lease, two_claims, task_recovered,
  reclaim-step, one_claim-Inv, success_args, one_success, task_finished, finish-step,
}

pub other_token : ◌≢◌ {A = String} "token-b" "token-a"
other_token e = ground (arith, text_eq_iff "token-b" "token-a")

pub claimed_found : find_task 1 one_claim.tasks ≡ some claimed_task
unfolding find_task claim_row put_task
claimed_found = refl

finishable : is_finishable success_args 120 claimed_task ≡ true
unfolding claim_row
finishable = refl

run_found : find_run claimed_run.id one_claim.runs ≡ some claimed_run
unfolding find_run max_run_number
run_found = refl

success_found : find_task 1 one_success.tasks ≡ some (finish_row success_args 120 claimed_task)
unfolding find_task finish_row claim_row
success_found = refl

success_terminal : is_terminal (finish_row success_args 120 claimed_task).status ≡ true
unfolding finish_row
success_terminal = refl

-- A second task beside the first.
abbrev two_tasks : Store
two_tasks = record one_success {
  tasks = one_success.tasks ++ record scan_draft { id = 2 } ∷ [];
  next_task_id = 3;
}

second-created :
    create_task none scan_draft one_success ≡ ok (record scan_draft { id = 2 }, two_tasks)
unfolding create_task insert_task finish_row claim_row
second-created = refl

-- A task that ran at the cutover, with no lease.
abbrev pub legacy_task : Task
legacy_task = record scan_task { status = running; started_at = some 60 }

abbrev pub legacy_store : Store
legacy_store = record { tasks = legacy_task ∷ []; runs = []; next_task_id = 2; next_run_id = 1 }

abbrev reconciled_run : TaskRun
reconciled_run = synthetic_run (λ d. d) 1 900 legacy_task 1

abbrev reconciled_store : Store
reconciled_store = record {
  tasks = reconcile_row retry 1 1000 900 legacy_task ∷ [];
  runs = reconciled_run ∷ [];
  next_task_id = 2;
  next_run_id = 2;
}

abbrev reconciled : ReconciledLegacyTask
reconciled = record {
  task = reconcile_row retry 1 1000 900 legacy_task;
  task_run = reconciled_run;
  run_action = appended;
}

legacy_reconciled :
    reconcile_legacy_orphan (λ d. d) 1 1000 900 legacy_store
    ≡ ok (some reconciled, reconciled_store)
unfolding reconcile_legacy_orphan require_task find_task sort update_task reconcile_run insert_run
    put_task reconcile_row require_task_run find_run synthetic_run max_run_number
legacy_reconciled = refl

legacy_found : find_task 1 legacy_store.tasks ≡ some legacy_task
unfolding find_task
legacy_found = refl

one_success-Inv : Inv one_success
one_success-Inv = Reach-Inv (λ d. d) (after two_steps finish-step)

Reach-Inv_example : Inv one_claim
Reach-Inv_example = Reach-Inv (λ d. d) two_steps

recover-fences_example :
    ((w : String) (duration at : ℕ) (s : Store) (y : Task × TaskRun)
      → heartbeat 1 w "token-a" duration at two_claims ≢ ok (y, s))
    × ((clock run_id : ℕ) (a : FinishArgs) (s : Store) (y : Task × TaskRun)
        → a.lock_token ≡ "token-a"
        → finish_run clock 1 run_id a two_claims ≢ ok (y, s))
recover-fences_example =
    recover-fences (λ d. d) expired_lease (some 300) 200 one_claim one_recovered recovered_lease
      one_claim-Inv task_recovered (after here reclaim-step) (tt, other_token)

pub one_task-Inv : Inv one_task
one_task-Inv = Reach-Inv (λ d. d) (after here create-step)

finish_run-exclusive_example :
    (success_args.worker_id ≡ success_args.worker_id)
    × (success_args.lock_token ≡ success_args.lock_token)
    × ◌≡◌ {A = ℕ} 1 1
finish_run-exclusive_example =
    finish_run-exclusive 120 120 1 1 1 success_args success_args one_claim one_success one_success _
      _ one_claim-Inv task_finished task_finished

Step-Follows_example : Follows (find_task 1 one_claim.tasks) (find_task 1 one_success.tasks)
Step-Follows_example = Step-Follows (λ d. d) one_claim one_success one_claim-Inv finish-step 1

Step-IsRecorded_example : IsRecorded claimed_run one_success.runs
Step-IsRecorded_example =
    Step-IsRecorded (λ d. d) one_claim one_success claimed_run one_claim-Inv finish-step run_found

Reach-terminal_example :
    (u : Task) × (find_task 1 two_tasks.tasks ≡ some u)
    × (u.status ≡ (finish_row success_args 120 claimed_task).status)
Reach-terminal_example =
    Reach-terminal (λ d. d) 1 (finish_row success_args 120 claimed_task) one_success-Inv
      (after here (creates none scan_draft _ scan-IsDraft second-created)) success_found
      success_terminal

reconcile-repairs_example : IsSound 1 reconciled_store × Touches 1 legacy_store reconciled_store
reconcile-repairs_example =
    reconcile-repairs (λ d. d) 1 1000 900 legacy_store reconciled_store legacy_task reconciled tt
      legacy_found refl legacy_reconciled
