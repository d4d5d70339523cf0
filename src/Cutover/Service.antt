-- ===== src/Cutover/Service.antt =====
-- `reconcile_legacy_tasks`.
use media_sync.Prelude.{
  ℕ, ◌+◌, ◌-◌, String, Bool, true, not, Option, none, some, List, [], ◌∷◌, if◌then◌else◌, ltb, max,
  text_eq, length, false,
}
use media_sync.Prelude.Sorting.{sort}
use media_sync.Tasks.Status.{
  TaskStatus, pending, running, retry, waiting_credential, cancel_requested, success, failed,
  cancelled, status_eq,
}
use media_sync.Tasks.Model.{Task, ownership_is_complete}
use media_sync.Tasks.Session.{M, ◌>>=◌, pure, get}
use media_sync.Tasks.Repository.Legacy.{
  RunAction, appended, finalized, preserved, ReconciledLegacyTask, reconcile_legacy_orphan,
}
use media_sync.Worker.Backoff.{ExponentialBackoff, delay_for}

-- The word that the column holds.
abbrev pub status_text : TaskStatus → String
status_text pending = "pending"
status_text running = "running"
status_text retry = "retry"
status_text waiting_credential = "waiting_credential"
status_text cancel_requested = "cancel_requested"
status_text success = "success"
status_text failed = "failed"
status_text cancelled = "cancelled"

pub record LegacyTaskReconciliationResult : Type 0 where
  pub inspected_count : ℕ
  pub preserved_by_status : List (String × ℕ)
  pub orphan_retry_count : ℕ
  pub orphan_failed_count : ℕ
  pub run_appended_count : ℕ
  pub run_finalized_count : ℕ
  pub run_preserved_count : ℕ

-- `counts[key] = counts.get(key, 0) + 1`; a dict keeps the order of insertion.
unfoldable pub bump : String → List (String × ℕ) → List (String × ℕ)
bump key [] = (key, 1) ∷ []
bump key ((k, n) ∷ rest) =
    let bumped = bump key rest in if text_eq k key then (k, n + 1) ∷ rest else (k, n) ∷ bumped

abbrev pub preserve : String → LegacyTaskReconciliationResult → LegacyTaskReconciliationResult
preserve key acc = record acc { preserved_by_status = bump key acc.preserved_by_status }

abbrev pub count_action :
    RunAction → LegacyTaskReconciliationResult → LegacyTaskReconciliationResult
count_action appended acc = record acc { run_appended_count = acc.run_appended_count + 1 }
count_action finalized acc = record acc { run_finalized_count = acc.run_finalized_count + 1 }
count_action preserved acc = record acc { run_preserved_count = acc.run_preserved_count + 1 }

abbrev pub count_orphan :
    ReconciledLegacyTask → LegacyTaskReconciliationResult → LegacyTaskReconciliationResult
count_orphan r acc =
    if status_eq r.task.status retry
    then record acc { orphan_retry_count = acc.orphan_retry_count + 1 }
    else record acc { orphan_failed_count = acc.orphan_failed_count + 1 }

-- What becomes of the counts when a call of `reconcile_legacy_orphan` returns.
abbrev pub tally :
    Option ReconciledLegacyTask → LegacyTaskReconciliationResult → LegacyTaskReconciliationResult
tally none acc = preserve "running_concurrent_change" acc
tally (some r) acc = count_action r.run_action (count_orphan r acc)

abbrev pub retry_moment : ExponentialBackoff → ℕ → Task → ℕ
retry_moment b now t =
    let next_retry_count = max (max t.retry_count t.attempt_count) 1 in
    now + delay_for b (max (next_retry_count - 1) 0)

-- The loop over the tasks as they were loaded.
unfoldable pub reconcile_each :
    (ℕ → ℕ)
    → ExponentialBackoff
    → ℕ
    → List Task
    → LegacyTaskReconciliationResult
    → M LegacyTaskReconciliationResult
reconcile_each to_ms b now [] acc = pure acc
reconcile_each to_ms b now (t ∷ ts) acc = elim (not (status_eq t.status running)) [
  | true ↦ reconcile_each to_ms b now ts (preserve (status_text t.status) acc)
  | false ↦ elim (ownership_is_complete t) [
    | true ↦ reconcile_each to_ms b now ts (preserve "running_v2_owned" acc)
    | false ↦ (do
      reconciled ← reconcile_legacy_orphan to_ms t.id (retry_moment b now t) now
      reconcile_each to_ms b now ts (tally reconciled acc))
  ]
]

-- `ORDER BY id`
abbrev pub is_smaller : Task → Task → Bool
is_smaller a b = ltb a.id b.id

-- `reconcile_legacy_tasks`
unfoldable pub reconcile_legacy_tasks :
    (ℕ → ℕ) → ExponentialBackoff → ℕ → M LegacyTaskReconciliationResult
reconcile_legacy_tasks to_ms b now = do
  s ← get
  let tasks = sort is_smaller s.tasks
  reconcile_each to_ms b now tasks (record {
    inspected_count = length tasks;
    preserved_by_status = [];
    orphan_retry_count = 0;
    orphan_failed_count = 0;
    run_appended_count = 0;
    run_finalized_count = 0;
    run_preserved_count = 0;
  })
