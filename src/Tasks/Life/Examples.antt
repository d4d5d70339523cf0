-- ===== src/Tasks/Life/Examples.antt =====
-- The promises of the task engine applied to the rows of `Tasks/Tests.antt`.
use media_sync.Prelude.{◌≡◌, ◌≢◌, refl, sym, All, none, some, [], ◌∷◌, ◌⊎◌, arith}
use media_sync.Tasks.Model.{Task, TaskRun, Store}
use media_sync.Tasks.Transitions.{run_not_found}
use media_sync.Tasks.Session.{ok, err, find_task}
use media_sync.Tasks.Repository.Claim.{claim_next, claim_row}
use media_sync.Tasks.Repository.Finish.{finish_run}
use media_sync.Tasks.Repository.Recover.{recover_expired_lease}
use media_sync.Tasks.Rows.{active_runs}
use media_sync.Tasks.Life.{IsHeldBy, IsReady, IsOverdue}
use media_sync.Tasks.Life.Steps.{LifeStep, Step-LifeStep}
use media_sync.Tasks.Life.Promises.{
  IsNext, IsClaimedIn, claim_next_first, IsEndedIn, finish_run_owned, IsRecoveredIn,
  recover_when_expired,
}
use media_sync.Tasks.Tests.{
  one_task, one_claim, claim-step, claimed_task, expired_lease, one_claim-Inv, success_args,
  success_validated,
}
use media_sync.Tasks.Examples.{one_task-Inv, claimed_found, other_token}

claim_next_first_example :
    (All (λ t. ¬ IsReady 100 t) one_task.tasks
      × (claim_next "worker-a" "token-a" 60 100 one_task ≡ ok (none, one_task)))
    ⊎ ((t : Task) × IsNext 100 one_task.tasks t
        × (t' : Task) × (r : TaskRun) × (s' : Store) × (claim_next "worker-a" "token-a" 60 100
              one_task
            ≡ ok (
              some (record { task = t'; task_run = r; lock_token = "token-a"; lease_until = 160 }),
              s',
            ))
        × IsClaimedIn "worker-a" "token-a" 100 160 one_task t t' r s')
claim_next_first_example =
    claim_next_first "worker-a" "token-a" 60 100 one_task refl (omega arith) one_task-Inv

claimed_task_held : IsHeldBy "worker-a" "token-a" 160 claimed_task
unfolding claim_row
claimed_task_held = record { worker = refl; token = refl; lease = refl }

claimed_task_running : claimed_task.status ≡ success_args.expected_task_status
unfolding claim_row
claimed_task_running = refl

finish_run_owned_example :
    (r : TaskRun) × (active_runs 1 one_claim.runs ≡ r ∷ [])
    × (((r.id ≡ 1)
          × (t' : Task) × (r' : TaskRun) × (s' : Store) × (finish_run 120 1 1 success_args one_claim
              ≡ ok ((t', r'), s'))
          × IsEndedIn success_args 120 1 1 one_claim claimed_task t' r r' s')
        ⊎ ((r.id ≢ 1) × (finish_run 120 1 1 success_args one_claim ≡ err run_not_found)))
finish_run_owned_example =
    finish_run_owned 120 160 1 1 success_args one_claim claimed_task one_claim-Inv claimed_found
      success_validated claimed_task_held (omega arith) claimed_task_running

recover_when_expired_example :
    ((¬ ((t : Task) × (find_task 1 one_claim.tasks ≡ some t) × IsOverdue expired_lease 200 t))
      × (recover_expired_lease expired_lease (some 300) 200 one_claim ≡ ok (none, one_claim)))
    ⊎ ((t : Task) × (find_task 1 one_claim.tasks ≡ some t)
        × IsOverdue expired_lease 200 t
        × (r : TaskRun) × (active_runs 1 one_claim.runs ≡ r ∷ [])
        × (t' : Task) × (r' : TaskRun) × (s' : Store) × (recover_expired_lease expired_lease
              (some 300)
              200
              one_claim
            ≡ ok (some (record { task = t'; task_run = r'; previous_lock_token = "token-a" }), s'))
        × IsRecoveredIn expired_lease 300 200 one_claim t t' r r' s')
recover_when_expired_example = recover_when_expired expired_lease 300 200 one_claim one_claim-Inv

Step-LifeStep_example :
    LifeStep (λ k. k ≢ "token-b") (find_task 1 one_task.tasks) (find_task 1 one_claim.tasks)
Step-LifeStep_example =
    Step-LifeStep (λ k. k ≢ "token-b") (λ d. d) one_task one_claim one_task-Inv claim-step
      (λ e. other_token (sym e)) 1
