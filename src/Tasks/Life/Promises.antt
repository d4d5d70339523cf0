-- ===== src/Tasks/Life/Promises.antt =====
-- The promises of `claim_next`, `finish_run` and `recover_expired_lease` of `repositories/tasks.py`.
use mathlib.Core.List.{Memᴰ}
use native.Mathlib.Decide.{ℕ_discrete}
use media_sync.Prelude.{
  ℕ, ◌+◌, ◌<◌, String, ◌≡◌, ◌≢◌, refl, subst, if◌then◌else◌, Option, true, false, none, some, List,
  [], ◌∷◌, ◌++◌, ◌⊎◌, inl, inr, arith, All, All-imp, is_empty, coalesce,
}
use media_sync.Tasks.Status.{RunStatus}
use media_sync.Tasks.Model.{Task, TaskRun, Store}
use media_sync.Tasks.Transitions.{run_not_found}
use media_sync.Tasks.Session.{ok, err, find_task, find_run}
use media_sync.Tasks.Repository.Claim.{claim_next, claim_row, is_claimable}
use media_sync.Tasks.Repository.Finish.{FinishArgs, validate_finish, finish_run, is_finishable}
use media_sync.Tasks.Repository.Recover.{
  ExpiredTaskLease, RecoveredTaskLease, recover_expired_lease, is_lease, current_row,
}
use media_sync.Tasks.Rows.{active_runs}
use media_sync.Tasks.Keys.{find_task-mem}
use media_sync.Tasks.Frame.{Touches, Touches-trans, put_task-Touches, insert_run-Touches}
use media_sync.Tasks.Ending.{IsSound-IsLinked}
use media_sync.Tasks.Invariant.{Inv}
use media_sync.Tasks.Invariant.Claim.{run_of, find_task-claimed, claim_row-id}
use media_sync.Tasks.Invariant.Finish.{
  finish_run-effect, finish_run-Touches, validate_finish-statuses,
}
use media_sync.Tasks.Invariant.Recover.{recover-effect, recover-Touches, is_lease-owned}
use media_sync.Tasks.Queue.{StandsBefore, claimed_store, claim_next-total}
use media_sync.Tasks.Owner.{finish_run-rows}
use media_sync.Tasks.Recovery.{recover-total}
use media_sync.Tasks.Life.{
  IsHeldBy, IsReady, IsClaimed, IsEnded, IsEndedRun, IsRecovered, IsLost, IsOverdue,
}
use media_sync.Tasks.Life.Rows.{
  claimable-IsReady, IsReady-claimable, claim_row-IsClaimed, IsHeldBy-held, finish_row-IsEnded,
  finish_run_row-IsEndedRun, recover_row-IsRecovered, lost_row-IsLost, lease-IsOverdue,
  IsOverdue-lease,
}

-- A ready task of the queue that stands before every ready task.
pub record IsNext (now : ℕ) (tasks : List Task) (t : Task) : Type 0 where
  pub listed : Memᴰ t tasks
  pub ready : IsReady now t
  pub unbeaten : All (λ u. IsReady now u → StandsBefore t u) tasks

-- The tables after a claim: the row that was written, and one more run, which is the worker's.
pub record IsClaimedIn (worker_id lock_token : String) (now until : ℕ) (s : Store) (t t' : Task)
    (r : TaskRun) (s' : Store) : Type 0 where
  pub row : find_task t.id s'.tasks ≡ some t'
  pub claimed : IsClaimed worker_id lock_token now until t t'
  pub opened : s'.runs ≡ s.runs ++ r ∷ []
  pub task : r.task_id ≡ t.id
  pub status : r.status ≡ RunStatus.running
  pub worker : r.worker_id ≡ some worker_id
  pub token : r.lock_token ≡ some lock_token
  pub since : r.started_at ≡ now
  pub others : Touches t.id s s'

unready : (now : ℕ) (t : Task) → is_claimable now t ≡ false → ¬ IsReady now t
unready now t h ready = let e = IsReady-claimable now t ready in cc

-- With a worker id that is not empty and a positive lease duration, `claim_next` never fails on tables
-- in order. It claims the ready task that stands before every other ready one (higher priority first,
-- then the earlier due moment, the older task, the smaller id): its row names the worker, the token
-- and the lease, a run of it is opened, and no other task changes. It gives nothing, and changes
-- nothing, only where no task is ready.
pub claim_next_first :
    (w k : String) (duration now : ℕ) (s : Store)
    → is_empty w ≡ false
    → 0 < duration
    → Inv s
    → (All (λ t. ¬ IsReady now t) s.tasks × (claim_next w k duration now s ≡ ok (none, s)))
      ⊎ ((t : Task) × IsNext now s.tasks t
          × (t' : Task) × (r : TaskRun) × (s' : Store) × (claim_next w k duration now s
              ≡ ok (
                some (record {
                  task = t';
                  task_run = r;
                  lock_token = k;
                  lease_until = now + duration;
                }),
                s',
              ))
          × IsClaimedIn w k now (now + duration) s t t' r s')
claim_next_first w k duration now s named lasting v =
    elim (claim_next-total w k duration now s named lasting v) [
      | inl (idle, run) ↦ inl (All-imp s.tasks (unready now) idle, run)
      | inr (t, best, run) ↦
          let until = now + duration in
          inr (
            t,
            record {
              listed = best.listed;
              ready = claimable-IsReady now t best.claimable;
              unbeaten =
                  All-imp s.tasks (λ u f ready. f (IsReady-claimable now u ready)) best.unbeaten;
            },
            claim_row w k now until t,
            run_of w k now until t.id s,
            claimed_store w k now until t.id s t,
            run,
            record {
              row =
                  find_task-claimed w k now until t.id s t
                    (find_task-mem t s.tasks v.task_keys best.listed);
              claimed = claim_row-IsClaimed w k now until t;
              opened = refl;
              task = refl;
              status = refl;
              worker = refl;
              token = refl;
              since = refl;
              others =
                  Touches-trans
                    (put_task-Touches t.id (claim_row w k now until) s
                      (claim_row-id w k now until t.id))
                    (insert_run-Touches t.id (run_of w k now until t.id s) _ refl refl);
            },
          )
    ]

-- The tables after the end of a run: the two rows that were written.
pub record IsEndedIn (a : FinishArgs) (m i k : ℕ) (s : Store) (t t' : Task) (r r' : TaskRun)
    (s' : Store) : Type 0 where
  pub row : find_task i s'.tasks ≡ some t'
  pub ended : IsEnded a m t t'
  pub run_row : find_run k s'.runs ≡ some r'
  pub run_ended : IsEndedRun a m r r'
  pub others : Touches i s s'

-- On tables in order, and with arguments that pass the checks of `finish_run`, the worker that holds
-- a task in the expected status by a lease that has not run out can end its run: the task has exactly
-- one running run, and the call that names it succeeds, gives the task up in the status asked for with
-- the retry counted as asked, closes the run with what the caller reports, and changes no other task;
-- a call that names any other run is refused.
pub finish_run_owned :
    (clock until i k : ℕ) (a : FinishArgs) (s : Store) (t : Task)
    → Inv s
    → find_task i s.tasks ≡ some t
    → validate_finish a s ≡ ok (tt, s)
    → IsHeldBy a.worker_id a.lock_token until t
    → clock < until
    → t.status ≡ a.expected_task_status
    → (r : TaskRun) × (active_runs i s.runs ≡ r ∷ [])
      × (((r.id ≡ k)
            × (t' : Task) × (r' : TaskRun) × (s' : Store) × (finish_run clock i k a s
                ≡ ok ((t', r'), s'))
            × IsEndedIn a (coalesce a.finished_at clock) i k s t t' r r' s')
          ⊎ ((r.id ≢ k) × (finish_run clock i k a s ≡ err run_not_found)))
finish_run_owned clock until i k a s t v found valid holder alive expected =
    let held = IsHeldBy-held a.worker_id a.lock_token clock until t holder alive in
    let h : is_finishable a clock t ≡ true = rw (held, expected) (ground arith) in
    let (r, single, named, other) = finish_run-rows clock i k a s t v found valid h in
    (
      r,
      single,
      elim (ℕ_discrete r.id k) [
        | no n ↦ inr (n, other n)
        | yes e ↦
            let (s', done, row, run_row) = named e in
            inl (
              e,
              _,
              _,
              s',
              done,
              record {
                row = row;
                ended = finish_row-IsEnded a clock t (validate_finish-statuses a s valid).0;
                run_row = run_row;
                run_ended = finish_run_row-IsEndedRun a clock r;
                others =
                    finish_run-Touches clock i k a s s' (finish_run-effect clock i k a s s' _ done);
              },
            )
      ],
    )

-- A recovery that returns something touches no other task.
recovered-Touches :
    (lease : ExpiredTaskLease) (next : Option ℕ) (now : ℕ) (s s' : Store) (x : RecoveredTaskLease)
    → recover_expired_lease lease next now s ≡ ok (some x, s')
    → Touches lease.task_id s s'
recovered-Touches lease next now s s' x h = elim (recover-effect lease next now s s' (some x) h) [
  | inl (none_given, same) ↦ absurd (cc)
  | inr e ↦ recover-Touches lease next now s s' e
]

overdue-current :
    (lease : ExpiredTaskLease) (now : ℕ) (s : Store) (t : Task)
    → find_task lease.task_id s.tasks ≡ some t
    → IsOverdue lease now t
    → current_row lease now s.tasks ≡ none
    → ⊥
overdue-current lease now s t found over gone =
    let due = IsOverdue-lease lease now t over in
    let h : (if is_lease lease now t then some t else none) ≡ none =
      subst
        (λ (o : Option Task).
          elim o [ none ↦ none | some u ↦ if is_lease lease now u then some u else none ] ≡ none)
        found gone in
    let h' : some t ≡ none = (rw due at h) in cc

-- The tables after a recovery.
pub record IsRecoveredIn (lease : ExpiredTaskLease) (next now : ℕ) (s : Store) (t t' : Task)
    (r r' : TaskRun) (s' : Store) : Type 0 where
  pub row : find_task lease.task_id s'.tasks ≡ some t'
  pub recovered : IsRecovered (some next) now t t'
  pub run_row : find_run r.id s'.runs ≡ some r'
  pub lost : IsLost now r r'
  pub others : Touches lease.task_id s s'

-- On tables in order, with a moment for the retry, `recover_expired_lease` never fails. Where the task
-- still has the lease and it has run out, at `now` at the latest, the task is given up and its retry
-- counted, it stays asked to stop, waits for a retry at that moment or, with its budget used up, has
-- failed; its one running run is lost, and no other task changes. Elsewhere nothing happens.
pub recover_when_expired :
    (lease : ExpiredTaskLease) (next now : ℕ) (s : Store)
    → Inv s
    → ((¬ ((t : Task) × (find_task lease.task_id s.tasks ≡ some t) × IsOverdue lease now t))
        × (recover_expired_lease lease (some next) now s ≡ ok (none, s)))
      ⊎ ((t : Task) × (find_task lease.task_id s.tasks ≡ some t)
          × IsOverdue lease now t
          × (r : TaskRun) × (active_runs lease.task_id s.runs ≡ r ∷ [])
          × (t' : Task) × (r' : TaskRun) × (s' : Store) × (recover_expired_lease lease
                (some next)
                now
                s
              ≡ ok (
                some (record { task = t'; task_run = r'; previous_lock_token = lease.lock_token }),
                s',
              ))
          × IsRecoveredIn lease next now s t t' r r' s')
recover_when_expired lease next now s v = elim (recover-total lease next now s v) [
  | inl (gone, run) ↦ inl (λ (t, found, over). overdue-current lease now s t found over gone, run)
  | inr (t, current, found, due, r, single, run, row, run_row) ↦
      let linked = IsSound-IsLinked lease.task_id s t (v.sound lease.task_id) found in
      inr (
        t,
        found,
        lease-IsOverdue lease now t due,
        r,
        single,
        _,
        _,
        _,
        run,
        record {
          row = row;
          recovered =
              recover_row-IsRecovered (some next) now t
                (is_lease-owned lease (some next) now t _ linked due).1;
          run_row = run_row;
          lost = lost_row-IsLost now r;
          others = recovered-Touches lease (some next) now s _ _ run;
        },
      )
]
