-- ===== src/Cutover/Examples.antt =====
-- The theorems on the cutover applied to a database with one orphan.
use media_sync.Prelude.{◌≡◌, refl, inl, inr, [], ◌∷◌, Bool-cases, ◌==◌, arith}
use media_sync.Prelude.Sorting.{sort, insert_sorted}
use media_sync.Tasks.Status.{retry}
use media_sync.Tasks.Rows.{active_runs}
use media_sync.Tasks.Model.{Store}
use media_sync.Tasks.Session.{
  ok, find_task, find_run, put_task, require_task, update_task, insert_run, require_task_run,
  max_run_number,
}
use media_sync.Tasks.Repository.Legacy.{
  reconcile_legacy_orphan, reconcile_run, reconcile_row, synthetic_run,
}
use media_sync.Tasks.Invariant.{Inv}
use media_sync.Tasks.Examples.{legacy_task, legacy_store}
use media_sync.Worker.Backoff.{default_backoff, delay_for, delay_loop}
use media_sync.Cutover.Service.{
  LegacyTaskReconciliationResult, reconcile_each, reconcile_legacy_tasks,
}
use media_sync.Cutover.Keeps.{IsLegacy, reconcile_legacy_tasks-Inv}

abbrev cutover_report : LegacyTaskReconciliationResult
cutover_report = record {
  inspected_count = 1;
  preserved_by_status = [];
  orphan_retry_count = 1;
  orphan_failed_count = 0;
  run_appended_count = 1;
  run_finalized_count = 0;
  run_preserved_count = 0;
}

abbrev after_cutover : Store
after_cutover = record {
  tasks = reconcile_row retry 1 30_000_900 900 legacy_task ∷ [];
  runs = synthetic_run (λ d. d) 1 900 legacy_task 1 ∷ [];
  next_task_id = 2;
  next_run_id = 2;
}

cut_over :
    reconcile_legacy_tasks (λ d. d) default_backoff 900 legacy_store
    ≡ ok (cutover_report, after_cutover)
unfolding reconcile_legacy_tasks reconcile_each sort insert_sorted reconcile_legacy_orphan
    require_task find_task update_task reconcile_run insert_run put_task reconcile_row
    require_task_run find_run synthetic_run delay_for max_run_number delay_loop
cut_over = refl

legacy_store-IsLegacy : IsLegacy legacy_store
unfolding find_task find_run active_runs
legacy_store-IsLegacy = record {
  keyed = record {
    fresh_task = λ i h. ground arith;
    fresh_run = λ i h. refl;
    keys = tt;
    task_keys = (refl, tt);
  };
  each = λ i. elim (Bool-cases (1 == i)) [
    | inl e ↦
        inr (legacy_task, rw e refl, record { runs_on = refl; incomplete = refl; unblocked = refl })
    | inr e ↦ inl (rw e refl)
  ];
}

reconcile_legacy_tasks-Inv_example : Inv after_cutover
reconcile_legacy_tasks-Inv_example =
    reconcile_legacy_tasks-Inv (λ d. d) default_backoff 900 cutover_report legacy_store
      after_cutover legacy_store-IsLegacy cut_over
