-- ===== src/Tasks/Invariant/Finish.antt =====
-- `finish_run` keeps the invariant.
use media_sync.Prelude.{
  ℕ, ◌≡◌, refl, Bool, true, false, ◌&&◌, some, List, [], ◌==◌, first, arith, ==-refl, inl, inr,
  Option-cases, Bool-cases,
}
use media_sync.Tasks.Model.{Task, TaskRun, Store, ownership_is_complete}
use media_sync.Tasks.Ending.{IsSound-IsLinked, active_runs-ended}
use media_sync.Tasks.Rows.{find_task-put}
use media_sync.Tasks.Status.{is_leased, is_run_terminal}
use media_sync.Tasks.Invariant.{IsLinked, IsSound, Inv}
use media_sync.Tasks.Frame.{Touches, Touches-trans, Touches-Inv, put_task-Touches, put_runs-Touches}
use media_sync.Tasks.Session.{
  ok, find_task, put_task, put_runs, require_task, require_task_run, update_task, update_runs,
}
use media_sync.Tasks.Checks.{IsCheck, IsCheck-cases}
use media_sync.Tasks.Repository.Claim.{is_owners_run}
use media_sync.Tasks.Repository.Finish.{
  FinishArgs, is_finishable, finish_row, finish_run_row, finish_run, validate_finish,
  task_to_run_status,
}

pub record FinishEffect (clock task_id task_run_id : ℕ) (a : FinishArgs) (s s' : Store)
    : Type 0 where
  pub valid : validate_finish a s ≡ ok (tt, s)
  pub old : Task
  pub found : find_task task_id s.tasks ≡ some old
  pub allowed : is_finishable a clock old ≡ true
  pub run : TaskRun
  pub ended :
      first (λ r. (r.id == task_run_id) && is_owners_run task_id a.worker_id a.lock_token r) s.runs
      ≡ some run
  pub result : s' ≡ record s {
    tasks = put_task task_id (finish_row a clock) s.tasks;
    runs =
        put_runs
          (λ r. (r.id == task_run_id) && is_owners_run task_id a.worker_id a.lock_token r)
          (finish_run_row a clock)
          s.runs;
  }

-- The checks of `finish_run` leave the tables alone.
validate_finish-IsCheck : (a : FinishArgs) → IsCheck (validate_finish a)
unfolding validate_finish
validate_finish-IsCheck a s s' h = ground arith

pub finish_run-effect :
    (clock i k : ℕ) (a : FinishArgs) (s s' : Store) (x : Task × TaskRun)
    → finish_run clock i k a s ≡ ok (x, s')
    → FinishEffect clock i k a s s'
unfolding finish_run update_task update_runs require_task require_task_run
finish_run-effect clock i k a s s' x h =
    elim (IsCheck-cases (validate_finish a) (validate_finish-IsCheck a) s) [
      | inl (e, bad) ↦ ground (arith)
      | inr valid ↦ elim (Option-cases (find_task i s.tasks)) [
        | inl absent ↦ ground arith
        | inr (t, found) ↦ elim (Bool-cases (is_finishable a clock t)) [
          | inr refused ↦ ground arith
          | inl allowed ↦
              elim (Option-cases
                (first (λ r. (r.id == k) && is_owners_run i a.worker_id a.lock_token r) s.runs)) [
                  | inl absent ↦ ground arith
                  | inr (r, ended) ↦ record {
                    valid = valid;
                    old = t;
                    found = found;
                    allowed = allowed;
                    run = r;
                    ended = ended;
                    result = ground arith;
                  }
                ]
        ]
      ]
    ]

-- The checks exclude that a task ends its run in a leased status, and that the run goes on.
pub validate_finish-statuses :
    (a : FinishArgs) (s : Store)
    → validate_finish a s ≡ ok (tt, s)
    → (is_leased a.task_status ≡ false) × (is_run_terminal a.run_status ≡ true)
unfolding validate_finish task_to_run_status
validate_finish-statuses a s h = ground arith

module _ (clock i k : ℕ) (a : FinishArgs) where
  abbrev ends : TaskRun → Bool
  ends r = (r.id == k) && is_owners_run i a.worker_id a.lock_token r

  finish_row-IsLinked :
      (t : Task) → is_leased a.task_status ≡ false → IsLinked (finish_row a clock t) []
  unfolding finish_row
  finish_row-IsLinked t h = ground arith

  is_finishable-owned :
      (t : Task) (rs : List TaskRun)
      → IsLinked t rs
      → is_finishable a clock t ≡ true
      → ownership_is_complete t ≡ true
  is_finishable-owned t rs v h = ground (arith, v.whole)

  module _ (s s' : Store) (e : FinishEffect clock i k a s s') where
    pub finish_run-Touches : Touches i s s'
    unfolding finish_row finish_run_row
    finish_run-Touches = rw e.result (
        Touches-trans (put_task-Touches i (finish_row a clock) s (λ t. refl)) (
          put_runs-Touches i ends (finish_run_row a clock) _ (λ r. (refl, refl))
            (λ r h. ground arith)))

    finish_run-IsSound : IsSound i s → IsSound i s'
    unfolding finish_row finish_run_row
    finish_run-IsSound v =
        let linked = IsSound-IsLinked i s e.old v e.found in
        let (unleased, terminal) = validate_finish-statuses a s e.valid in
        rw
          (
            e.result,
            find_task-put i i (finish_row a clock) s.tasks (λ t. refl),
            ==-refl i,
            e.found,
            active_runs-ended i ends (finish_run_row a clock) s e.old e.run linked
                (is_finishable-owned e.old _ linked e.allowed) e.ended (λ q h. ground arith)
                (λ q h. ground arith),
          )
          (finish_row-IsLinked e.old unleased)

pub finish_run-Inv :
    (clock i k : ℕ) (a : FinishArgs) (s s' : Store) (x : Task × TaskRun)
    → Inv s
    → finish_run clock i k a s ≡ ok (x, s')
    → Inv s'
finish_run-Inv clock i k a s s' x v h =
    let e = finish_run-effect clock i k a s s' x h in
    Touches-Inv (finish_run-Touches clock i k a s s' e) v
      (finish_run-IsSound clock i k a s s' e (v.sound i))
