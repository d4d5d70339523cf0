-- ===== src/Tasks/Repository/Create.antt =====
-- `TaskRepository.create_task`, `create_run` and `_append_task_run`.
use media_sync.Prelude.{
  ℕ, String, ◌+◌, Bool, false, ◌&&◌, not, Option, none, some, List, [], ◌∷◌, ◌++◌, ◌==◌,
  if◌then◌else◌, first, is_some, holds,
}
use media_sync.Tasks.Status.{TaskStatus, pending, RunStatus, status_eq, run_status_eq, is_leased}
use media_sync.Tasks.Json.{end}
use media_sync.Tasks.Model.{Task, TaskRun, passes_checks}
use media_sync.Tasks.Transitions.{
  value_error, state_conflict, ownership_lost, active_run_exists, integrity_error,
}
use media_sync.Tasks.Session.{
  M, ok, err, ◌>>=◌, ◌>>◌, guard, get, require_task, insert_run, max_run_number,
}

-- The unique constraint on `idempotency_key`; null keys never clash.
abbrev pub has_key : Option String → List Task → Bool
has_key none ts = false
has_key (some k) ts = is_some (first (λ t. holds t.idempotency_key k) ts)

-- `session.add(task)` and `flush`.
unfoldable pub insert_task : Task → M Task
insert_task draft s =
    let task = record draft { id = s.next_task_id } in
    if passes_checks task && not (has_key task.idempotency_key s.tasks)
    then ok (task, record s { tasks = s.tasks ++ task ∷ []; next_task_id = s.next_task_id + 1 })
    else err integrity_error

-- `TaskRepository.create_task`. The draft's primary key is not used; `status` is the one that the
-- draft was built with, if any.
unfoldable pub create_task : Option TaskStatus → Task → M Task
unfolding insert_task
create_task none draft = insert_task (record draft { status = pending })
create_task (some status) draft = do
  guard (status_eq status pending) value_error
  insert_task (record draft { status = status })

-- `SELECT … WHERE task_id = … AND status = 'running'`
abbrev pub is_active_of : ℕ → TaskRun → Bool
is_active_of i r = (r.task_id == i) && run_status_eq r.status RunStatus.running

-- The run that `create_run` adds; `started_at` is its argument, or the clock's moment.
abbrev pub new_run : ℕ → ℕ → String → String → ℕ → Option ℕ → ℕ → TaskRun
new_run task_id run_number worker_id lock_token started_at last_heartbeat_at id = record {
  id = id;
  task_id = task_id;
  run_number = run_number;
  worker_id = some worker_id;
  lock_token = some lock_token;
  status = RunStatus.running;
  started_at = started_at;
  finished_at = none;
  last_heartbeat_at = last_heartbeat_at;
  duration_ms = none;
  result_summary = none;
  error_code = none;
  error_message = none;
  metrics = end;
  created_at = started_at;
  updated_at = started_at;
}

-- `TaskRepository._append_task_run`
unfoldable pub append_task_run : (ℕ → TaskRun) → M TaskRun
unfolding insert_run
append_task_run make s =
    if run_status_eq (make s.next_run_id).status RunStatus.running
    then insert_run make s
    else err value_error

-- `TaskRepository.create_run`
unfoldable pub create_run : ℕ → String → String → ℕ → Option ℕ → M TaskRun
create_run task_id worker_id lock_token started_at last_heartbeat_at = do
  task ← require_task task_id
  guard (is_leased task.status) (state_conflict task.id task.status)
  guard (holds task.locked_by worker_id && holds task.lock_token lock_token)
      (ownership_lost task_id worker_id)
  s ← get
  guard (not (is_some (first (is_active_of task_id) s.runs))) (active_run_exists task_id)
  let next_run_number = max_run_number task_id s.runs + 1
  append_task_run
      (new_run task_id next_run_number worker_id lock_token started_at last_heartbeat_at)
