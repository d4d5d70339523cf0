-- ===== src/Tasks/Invariant.antt =====
-- What holds of the two tables between two transactions, task by task.
pub mod Claim
pub mod Finish
pub mod Heartbeat
pub mod Legacy
pub mod Recover
pub mod Transition
use media_sync.Prelude.{
  ℕ, ◌≤◌, ◌≡◌, Bool, true, false, Option, none, some, List, [], ◌∷◌, ◌⊎◌, is_some,
}
use media_sync.Tasks.Status.{
  TaskStatus, running, waiting_credential, is_leased, is_terminal, status_eq,
}
use media_sync.Tasks.Model.{Task, TaskRun, Store, ownership_is_clear, ownership_is_complete}
use media_sync.Tasks.Session.{find_task, find_run}
use media_sync.Tasks.Keys.{HasUniqueKeys, HasUniqueTasks}
use media_sync.Tasks.Rows.{active_runs}

-- The running run of a task belongs to the task's owner.
pub record IsOwnersRun (t : Task) (r : TaskRun) : Type 0 where
  pub same_worker : r.worker_id ≡ t.locked_by
  pub same_token : r.lock_token ≡ t.lock_token

-- A task beside its running runs.
pub record IsLinked (t : Task) (rs : List TaskRun) : Type 0 where
  -- ck_tasks_ownership_fields_complete
  pub whole : (ownership_is_clear t ≡ true) ⊎ (ownership_is_complete t ≡ true)
  -- A task that nobody owns has no running run and does not run.
  pub free : ownership_is_clear t ≡ true → (rs ≡ []) × (status_eq t.status running ≡ false)
  -- A task that is owned is leased, and has one running run, its owner's.
  pub held :
      ownership_is_complete t ≡ true
      → (is_leased t.status ≡ true) × ((r : TaskRun) × (rs ≡ r ∷ []) × IsOwnersRun t r)
  pub completed : is_some t.completed_at ≡ is_terminal t.status
  pub blocked : is_some t.blocked_at ≡ status_eq t.status waiting_credential

abbrev pub Linked : Option Task → List TaskRun → Type 0
Linked none rs = rs ≡ []
Linked (some t) rs = IsLinked t rs

-- The rows of one task are in order.
abbrev pub IsSound : ℕ → Store → Type 0
IsSound i s = Linked (find_task i s.tasks) (active_runs i s.runs)

pub record Inv (s : Store) : Type 0 where
  pub sound : (i : ℕ) → IsSound i s
  pub fresh_task : (i : ℕ) → s.next_task_id ≤ i → find_task i s.tasks ≡ none
  pub fresh_run : (i : ℕ) → s.next_run_id ≤ i → find_run i s.runs ≡ none
  pub keys : HasUniqueKeys s.runs
  pub task_keys : HasUniqueTasks s.tasks
