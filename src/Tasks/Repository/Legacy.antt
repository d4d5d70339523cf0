-- ===== src/Tasks/Repository/Legacy.antt =====
-- `TaskRepository.reconcile_legacy_orphan` and `_duration_ms`.
use media_sync.Prelude.{
  ℕ, String, ◌+◌, ◌-◌, max, Bool, ◌&&◌, ◌||◌, not, Option, none, some, List, [], ◌∷◌, ◌==◌,
  if◌then◌else◌, ltb, leb, is_some, holds, coalesce, select, length,
}
use media_sync.Prelude.Sorting.{sort}
use media_sync.Tasks.Status.{
  TaskStatus, running, retry, failed, RunStatus, status_eq, run_status_eq,
}
use media_sync.Tasks.Json.{num, str, end, field}
use media_sync.Tasks.Model.{Task, TaskRun, ownership_is_complete}
use media_sync.Tasks.Transitions.{run_not_found, legacy_run_conflict}
use media_sync.Tasks.Session.{
  M, ◌>>=◌, ◌>>◌, guard, pure, get, expect, require_task, require_task_run, update_task,
  update_runs, insert_run, max_run_number,
}
use media_sync.Tasks.Repository.Values.{release}
use media_sync.Tasks.Repository.Create.{is_active_of}

-- LEGACY_CUTOVER_ERROR_CODE and LEGACY_CUTOVER_ERROR_MESSAGE
abbrev pub legacy_cutover_error_code : String
legacy_cutover_error_code = "LEGACY_CUTOVER_RECOVERY"

abbrev pub legacy_cutover_error_message : String
legacy_cutover_error_message =
    "legacy execution stopped during process cutover; remote outcome is unknown"

pub data RunAction : Type 0 where
  appended finalized preserved : RunAction

pub record ReconciledLegacyTask : Type 0 where
  pub task : Task
  pub task_run : TaskRun
  pub run_action : RunAction

-- `TaskRepository._duration_ms`. `to_ms` is `int(seconds * 1000)` of a span of microseconds, in
-- Python's floats; a negative span gives 0.
unfoldable pub duration_ms : (ℕ → ℕ) → ℕ → ℕ → ℕ
duration_ms to_ms started_at finished_at =
    if ltb finished_at started_at then 0 else to_ms (finished_at - started_at)

-- `select(TaskRun).where(lost by the cutover).order_by(run_number desc, id desc).limit(1)`
abbrev pub is_cutover_run : ℕ → TaskRun → Bool
is_cutover_run task_id r =
    (r.task_id == task_id)
    && run_status_eq r.status RunStatus.lost
    && holds r.error_code legacy_cutover_error_code

unfoldable pub is_newer : TaskRun → TaskRun → Bool
is_newer a b = ltb b.run_number a.run_number || (a.run_number == b.run_number) && ltb b.id a.id

abbrev pub is_older : TaskRun → TaskRun → Bool
is_older a b = ltb a.run_number b.run_number || (a.run_number == b.run_number) && ltb a.id b.id

abbrev pub head_run : List TaskRun → Option TaskRun
head_run [] = none
head_run (r ∷ rs) = some r

-- What reconciliation writes to the task.
unfoldable pub reconcile_row : TaskStatus → ℕ → ℕ → ℕ → Task → Task
unfolding release
reconcile_row target retry_count next_attempt_at now t =
    let t' = release now t in
    record t' {
      status = target;
      retry_count = retry_count;
      next_attempt_at = if status_eq target retry then some next_attempt_at else none;
      last_error_code = some legacy_cutover_error_code;
      last_error_message = some legacy_cutover_error_message;
      completed_at = if status_eq target failed then some now else none;
    }

module _ (to_ms : ℕ → ℕ) where
  -- What reconciliation writes to the run that was active.
  unfoldable pub finalize_row : ℕ → TaskRun → TaskRun
  unfolding duration_ms
  finalize_row now r = record r {
    status = RunStatus.lost;
    finished_at = some now;
    duration_ms = some (duration_ms to_ms r.started_at now);
    result_summary = some legacy_cutover_error_message;
    error_code = some legacy_cutover_error_code;
    error_message = some legacy_cutover_error_message;
    updated_at = now;
  }

  -- The run that reconciliation adds. `created_at` is never null.
  unfoldable pub synthetic_run : ℕ → ℕ → Task → ℕ → TaskRun
  unfolding duration_ms
  synthetic_run run_number now t id =
      let started_at = coalesce t.started_at t.created_at in
      record {
        id = id;
        task_id = t.id;
        run_number = run_number;
        worker_id = some "legacy-cutover";
        lock_token = none;
        status = RunStatus.lost;
        started_at = started_at;
        finished_at = some now;
        last_heartbeat_at = none;
        duration_ms = some (duration_ms to_ms started_at now);
        result_summary = some legacy_cutover_error_message;
        error_code = some legacy_cutover_error_code;
        error_message = some legacy_cutover_error_message;
        metrics = field "schema_version" (num "1") (field "reconciled_from" (str "legacy") end);
        created_at = now;
        updated_at = now;
      }

  -- Finalizes the active run, or keeps the cutover's record, or adds one.
  unfoldable pub reconcile_run : Task → ℕ → Option TaskRun → Option TaskRun → M (ℕ × RunAction)
  reconcile_run t now (some active) equivalent = do
    hit ←
        update_runs (λ r. (r.id == active.id) && run_status_eq r.status RunStatus.running)
          (finalize_row now)
    i ← expect hit run_not_found
    pure (i, finalized)
  reconcile_run t now none (some equivalent) = pure (equivalent.id, preserved)
  reconcile_run t now none none = do
    s ← get
    run ← insert_run (synthetic_run (max_run_number t.id s.runs + 1) now t)
    pure (run.id, appended)

  -- `TaskRepository.reconcile_legacy_orphan`
  unfoldable pub reconcile_legacy_orphan : ℕ → ℕ → ℕ → M (Option ReconciledLegacyTask)
  reconcile_legacy_orphan task_id next_attempt_at now = do
    t ← require_task task_id
    if not (status_eq t.status running) || ownership_is_complete t then pure none else (do
      s ← get
      let retry_count = max (max t.retry_count t.attempt_count) 1
      let target = if leb retry_count t.max_retries then retry else failed
      let active_runs = sort is_older (select (is_active_of task_id) s.runs)
      let equivalent = head_run (sort is_newer (select (is_cutover_run task_id) s.runs))
      guard (leb (length active_runs) 1) (legacy_run_conflict task_id)
      guard (not (is_some (head_run active_runs) && is_some equivalent))
          (legacy_run_conflict task_id)
      hit ←
          update_task task_id (λ u. status_eq u.status running && not (ownership_is_complete u))
            (reconcile_row target retry_count next_attempt_at now)
      elim hit [
        | none ↦ pure none
        | some i ↦ (do
          (run_id, action) ← reconcile_run t now (head_run active_runs) equivalent
          task ← require_task i
          run ← require_task_run run_id
          pure (some (record { task = task; task_run = run; run_action = action })))
      ])
