-- ===== src/Tasks/Invariant/Legacy.antt =====
-- `reconcile_legacy_orphan` brings an orphan of the legacy execution into order. An orphan runs with
-- no owner, so it does not satisfy the invariant before.
use media_sync.Prelude.{
  ℕ, ◌+◌, ◌≡◌, refl, ap, subst, Bool, true, false, not, ◌&&◌, ◌||◌, Option, none, some, List, [],
  ◌∷◌, ◌++◌, ◌==◌, max, leb, leb→le, if◌then◌else◌, select, length, arith, inl, inr, ◌⊎◌,
  Option-cases, Bool-cases, ==-refl,
}
use media_sync.Prelude.Sorting.{sort, sort-nil, sort-singleton}
use media_sync.Tasks.Status.{
  TaskStatus, running, retry, failed, RunStatus, status_eq, run_status_eq,
}
use media_sync.Tasks.Model.{Task, TaskRun, Store, ownership_is_complete}
use media_sync.Tasks.Session.{
  ok, find_task, put_task, put_runs, require_task, require_task_run, update_task, update_runs,
  insert_run, max_run_number,
}
use media_sync.Tasks.Repository.Create.{is_active_of}
use media_sync.Tasks.Repository.Legacy.{
  RunAction, ReconciledLegacyTask, is_cutover_run, is_newer, is_older, head_run, reconcile_row,
  finalize_row, synthetic_run, reconcile_run, reconcile_legacy_orphan,
}
use media_sync.Tasks.Rows.{
  find_task-id, find_task-put, active_runs, active_runs-append, active_runs-put_ended, first-single,
}
use media_sync.Tasks.Checks.{Result-cases}
use media_sync.Tasks.Keys.{HasUniqueKeys, find_run-first, put_runs-key}
use media_sync.Tasks.Invariant.{IsLinked, IsSound}
use media_sync.Tasks.Frame.{
  Touches, Touches-refl, Touches-trans, put_task-Touches, put_runs-Touches, insert_run-Touches,
}

abbrev pub legacy_retry_count : Task → ℕ
legacy_retry_count t = max (max t.retry_count t.attempt_count) 1

abbrev pub legacy_target : Task → TaskStatus
legacy_target t = if leb (legacy_retry_count t) t.max_retries then retry else failed

at_most_single :
    (l : List TaskRun) → leb (length l) 1 ≡ true → (l ≡ []) ⊎ ((a : TaskRun) × (l ≡ a ∷ []))
at_most_single [] h = inl refl
at_most_single (a ∷ []) h = inr (a, refl)
at_most_single (a ∷ b ∷ l) h = absurd (omega (arith, leb→le (length (a ∷ b ∷ l)) 1 h))

module _ (to_ms : ℕ → ℕ) (i next now : ℕ) where
  abbrev set_row : Task → Task → Task
  set_row t = reconcile_row (legacy_target t) (legacy_retry_count t) next now

  abbrev written : Store → Task → Store
  written s t = record s { tasks = put_task i (set_row t) s.tasks }

  abbrev oldest_active : Store → Option TaskRun
  oldest_active s = head_run (sort is_older (select (is_active_of i) s.runs))

  abbrev newest_cutover : Store → Option TaskRun
  newest_cutover s = head_run (sort is_newer (select (is_cutover_run i) s.runs))

  pub record ReconcileEffect (s s' : Store) : Type 0 where
    pub old : Task
    pub found : find_task i s.tasks ≡ some old
    pub runs_on : status_eq old.status running ≡ true
    pub incomplete : ownership_is_complete old ≡ false
    pub at_most_one : leb (length (sort is_older (select (is_active_of i) s.runs))) 1 ≡ true
    pub run_id : ℕ
    pub action : RunAction
    pub run_done :
        reconcile_run to_ms old now (oldest_active s) (newest_cutover s) (written s old)
        ≡ ok ((run_id, action), s')

  -- An orphan that is on record is reconciled, or the call fails.
  pub orphan-effect :
      (s s' : Store) (x : Option ReconciledLegacyTask) (t : Task)
      → find_task i s.tasks ≡ some t
      → not (status_eq t.status running) || ownership_is_complete t ≡ false
      → reconcile_legacy_orphan to_ms i next now s ≡ ok (x, s')
      → ReconcileEffect s s'
  unfolding reconcile_legacy_orphan update_task require_task require_task_run
  orphan-effect s s' x t found orphan h =
      elim (Result-cases
        (reconcile_run to_ms t now (oldest_active s) (newest_cutover s) (written s t))) [
          | inl (e, bad) ↦ absurd (ground arith)
          | inr (((run_id, action), s1), fine) ↦ record {
            old = t;
            found = found;
            runs_on = ground arith;
            incomplete = ground arith;
            at_most_one = ground arith;
            run_id = run_id;
            action = action;
            run_done = ground arith;
          }
        ]

  -- A task that is not an orphan is left alone.
  pub reconcile-effect :
      (s s' : Store) (x : Option ReconciledLegacyTask)
      → reconcile_legacy_orphan to_ms i next now s ≡ ok (x, s')
      → (x ≡ none) × (s' ≡ s) ⊎ ReconcileEffect s s'
  unfolding reconcile_legacy_orphan require_task
  reconcile-effect s s' x h = elim (Option-cases (find_task i s.tasks)) [
    | inl absent ↦ absurd (ground arith)
    | inr (t, found) ↦
        elim (Bool-cases (not (status_eq t.status running) || ownership_is_complete t)) [
          | inl other ↦ inl (ground arith, ground arith)
          | inr orphan ↦ inr (orphan-effect s s' x t found orphan h)
        ]
  ]

  reconcile_row-id : (t u : Task) → (set_row t u).id ≡ u.id
  unfolding reconcile_row
  reconcile_row-id t u = refl

  reconcile_row-IsLinked : (t : Task) → t.blocked_at ≡ none → IsLinked (set_row t t) []
  unfolding reconcile_row
  reconcile_row-IsLinked t h = ground arith

  abbrev by_key : TaskRun → TaskRun → Bool
  by_key a r = (r.id == a.id) && is_active_of i r

  -- The three ways to leave a record of the cutover, seen from the running runs of the task.
  pub record RunEffect (w s' : Store) : Type 0 where
    pub touches : Touches i w s'
    pub same_tasks : s'.tasks ≡ w.tasks
    pub idle : active_runs i s'.runs ≡ []

  finalize_row-keys :
      (r : TaskRun)
      → ((finalize_row to_ms now r).id ≡ r.id) × ((finalize_row to_ms now r).task_id ≡ r.task_id)
  unfolding finalize_row
  finalize_row-keys r = (refl, refl)

  finalize_row-ended : (r : TaskRun) → is_active_of i (finalize_row to_ms now r) ≡ false
  unfolding finalize_row
  finalize_row-ended r = ground arith

  finalize-result :
      (t : Task) (w s' : Store) (a : TaskRun) (e : Option TaskRun) (y : ℕ × RunAction)
      → reconcile_run to_ms t now (some a) e w ≡ ok (y, s')
      → s' ≡ record w {
        runs =
            put_runs
              (λ r. (r.id == a.id) && run_status_eq r.status RunStatus.running)
              (finalize_row to_ms now)
              w.runs;
      }
  unfolding reconcile_run update_runs
  finalize-result t w s' a e y h = ground arith

  run-finalized :
      (t : Task) (w s' : Store) (a : TaskRun) (e : Option TaskRun) (y : ℕ × RunAction)
      → HasUniqueKeys w.runs
      → active_runs i w.runs ≡ a ∷ []
      → reconcile_run to_ms t now (some a) e w ≡ ok (y, s')
      → RunEffect w s'
  run-finalized t w s' a e y u single h =
      let set = finalize_row to_ms now in
      let (active, hit) = first-single i w.runs a single in
      let found = find_run-first (is_active_of i) w.runs a u hit in
      rw (finalize-result t w s' a e y h, put_runs-key i a set w.runs u found (ground arith))
        (record {
          touches =
              put_runs-Touches i (by_key a) set w (λ r. finalize_row-keys r) (λ r k. ground arith);
          same_tasks = refl;
          idle =
              rw
                (
                  active_runs-put_ended i (by_key a) set w.runs (λ r k. finalize_row-ended r),
                  single,
                )
                (ground (arith, active));
        })

  run-idle :
      (t : Task) (w s' : Store) (e : Option TaskRun) (y : ℕ × RunAction)
      → t.id ≡ i
      → active_runs i w.runs ≡ []
      → reconcile_run to_ms t now none e w ≡ ok (y, s')
      → RunEffect w s'
  unfolding reconcile_run insert_run synthetic_run
  run-idle t w s' (some e) y key none_runs h =
      let same : s' ≡ w = ground arith in
      rw same (record { touches = Touches-refl i w; same_tasks = refl; idle = none_runs })
  run-idle t w s' none y key none_runs h =
      let run = synthetic_run to_ms (max_run_number t.id w.runs + 1) now t w.next_run_id in
      let same : s' ≡ record w { runs = w.runs ++ run ∷ []; next_run_id = w.next_run_id + 1 } =
        ground arith in
      rw same (record {
        touches = insert_run-Touches i run w key refl;
        same_tasks = refl;
        idle = rw (active_runs-append i w.runs run, none_runs) (ground arith);
      })

  module _ (s s' : Store) (e : ReconcileEffect s s') (u : HasUniqueKeys s.runs) where
    reconcile-run : RunEffect (written s e.old) s'
    unfolding active_runs
    reconcile-run =
        let w = written s e.old in
        let query = select (is_active_of i) s.runs in
        let done = λ (o : Option TaskRun).
          reconcile_run to_ms e.old now o (newest_cutover s) w ≡ ok ((e.run_id, e.action), s') in
        elim (at_most_single (sort is_older query) e.at_most_one) [
          | inl empty ↦
              run-idle e.old w s' (newest_cutover s) (e.run_id, e.action)
                (find_task-id i s.tasks e.old e.found) (sort-nil is_older query empty)
                (subst done (ap head_run empty) e.run_done)
          | inr (a, single) ↦
              run-finalized e.old w s' a (newest_cutover s) (e.run_id, e.action) u
                (sort-singleton is_older query a single)
                (subst done (ap head_run single) e.run_done)
        ]

    pub reconcile-Touches : Touches i s s'
    reconcile-Touches =
        Touches-trans (put_task-Touches i (set_row e.old) s (reconcile_row-id e.old))
          reconcile-run.touches

    -- Whatever state the orphan was in, its rows are in order afterwards.
    pub reconcile-IsSound : e.old.blocked_at ≡ none → IsSound i s'
    reconcile-IsSound h =
        rw
          (
            reconcile-run.same_tasks,
            find_task-put i i (set_row e.old) s.tasks (reconcile_row-id e.old),
            ==-refl i,
            e.found,
            reconcile-run.idle,
          )
          (reconcile_row-IsLinked e.old h)
