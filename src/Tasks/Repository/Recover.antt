-- ===== src/Tasks/Repository/Recover.antt =====
-- `TaskRepository.list_expired_leases`, `recover_expired_lease` and `_mark_task_run_lost`.
use media_sync.Prelude.{
  ℕ, String, ◌+◌, Bool, ◌&&◌, ◌||◌, not, Option, none, some, List, [], ◌∷◌, ◌==◌, if◌then◌else◌,
  ltb, leb, is_some, is_due, holds, coalesce, select, take,
}
use media_sync.Prelude.Sorting.{sort}
use media_sync.Tasks.Status.{
  TaskStatus, retry, cancel_requested, failed, RunStatus, status_eq, is_leased,
}
use media_sync.Tasks.Model.{Task, TaskRun}
use media_sync.Tasks.Transitions.{value_error, run_not_found}
use media_sync.Tasks.Session.{
  M, ◌>>=◌, ◌>>◌, guard, pure, get, expect, find_task, require_task, require_task_run, update_task,
  update_runs,
}
use media_sync.Tasks.Repository.Values.{task_transition_values, apply_values, release}
use media_sync.Tasks.Repository.Claim.{is_owners_run}

-- LEASE_EXPIRED_ERROR_CODE and LEASE_EXPIRED_ERROR_MESSAGE
abbrev pub lease_expired_error_code : String
lease_expired_error_code = "WORKER_LEASE_EXPIRED"

abbrev pub lease_expired_error_message : String
lease_expired_error_message = "worker lease expired before task completion"

pub record ExpiredTaskLease : Type 0 where
  pub task_id : ℕ
  pub status : TaskStatus
  pub worker_id : String
  pub lock_token : String
  pub lease_until : ℕ
  pub retry_count : ℕ

pub record RecoveredTaskLease : Type 0 where
  pub task : Task
  pub task_run : TaskRun
  pub previous_lock_token : String

-- The WHERE clause of `list_expired_leases`.
abbrev pub is_expired : ℕ → Task → Bool
is_expired now t =
    is_leased t.status && is_some t.locked_by && is_some t.lock_token && is_due t.lease_until now

-- `order_by(lease_until, priority desc, id)`; a listed row has a lease.
unfoldable pub expires_before : Task → Task → Bool
expires_before a b =
    ltb (coalesce a.lease_until 0) (coalesce b.lease_until 0)
    || (coalesce a.lease_until 0 == coalesce b.lease_until 0)
      && (ltb b.priority a.priority || (a.priority == b.priority) && ltb a.id b.id)

abbrev pub make_lease :
    Task → Option String → Option String → Option ℕ → List ExpiredTaskLease → List ExpiredTaskLease
make_lease t (some worker_id) (some lock_token) (some lease_until) rest =
    record {
      task_id = t.id;
      status = t.status;
      worker_id = worker_id;
      lock_token = lock_token;
      lease_until = lease_until;
      retry_count = t.retry_count;
    }
    ∷ rest
make_lease t _ _ _ rest = rest

-- The loop over the rows, which skips a row without an owner.
unfoldable pub to_leases : List Task → List ExpiredTaskLease
to_leases [] = []
to_leases (t ∷ ts) = make_lease t t.locked_by t.lock_token t.lease_until (to_leases ts)

-- `TaskRepository.list_expired_leases`
unfoldable pub list_expired_leases : ℕ → ℕ → M (List ExpiredTaskLease)
list_expired_leases limit now = do
  guard (leb 1 limit && leb limit 1000) value_error
  s ← get
  pure (to_leases (take limit (sort expires_before (select (is_expired now) s.tasks))))

-- The WHERE clause that names a lease and asks that it has run out.
abbrev pub is_lease : ExpiredTaskLease → ℕ → Task → Bool
is_lease lease now t =
    status_eq t.status lease.status
    && holds t.locked_by lease.worker_id
    && holds t.lock_token lease.lock_token
    && is_due t.lease_until now

-- The status that a recovered task goes to.
unfoldable pub recovery_status : TaskStatus → ℕ → ℕ → TaskStatus
recovery_status status retry_count max_retries =
    if status_eq status cancel_requested
    then cancel_requested
    else if ltb max_retries retry_count
    then failed
    else retry

-- What recovery writes to the task; `target` and `retry_count` are the new ones.
unfoldable pub recover_row : TaskStatus → ℕ → Option ℕ → ℕ → Task → Task
unfolding task_transition_values apply_values release
recover_row target retry_count next_attempt_at now t =
    let values =
      task_transition_values target now none (some lease_expired_error_code)
        (some lease_expired_error_message)
        (if status_eq target retry then next_attempt_at else none) in
    let kept = record values {
      cancel_requested_at =
          if status_eq target cancel_requested then none else values.cancel_requested_at;
    } in
    let t' = release now (apply_values kept t) in record t' { retry_count = retry_count }

-- What `_mark_task_run_lost` writes.
unfoldable pub lost_row : ℕ → TaskRun → TaskRun
lost_row now r = record r {
  status = RunStatus.lost;
  finished_at = some now;
  result_summary = some lease_expired_error_message;
  error_code = some lease_expired_error_code;
  error_message = some lease_expired_error_message;
  updated_at = now;
}

-- `TaskRepository._mark_task_run_lost`
unfoldable pub mark_task_run_lost : ℕ → String → String → ℕ → M (Option ℕ)
mark_task_run_lost task_id worker_id lock_token now =
    update_runs (is_owners_run task_id worker_id lock_token) (lost_row now)

-- The writes of `recover_expired_lease`, in `begin_nested`.
unfoldable pub recover_writes :
    ExpiredTaskLease → TaskStatus → ℕ → Option ℕ → ℕ → M (Option RecoveredTaskLease)
recover_writes lease target retry_count next_attempt_at now = do
  hit ←
      update_task lease.task_id (is_lease lease now)
        (recover_row target retry_count next_attempt_at now)
  elim hit [
    | none ↦ pure none
    | some i ↦ (do
      lost ← mark_task_run_lost lease.task_id lease.worker_id lease.lock_token now
      run_id ← expect lost run_not_found
      task ← require_task i
      run ← require_task_run run_id
      pure (some (record { task = task; task_run = run; previous_lock_token = lease.lock_token })))
  ]

-- The SELECT of `recover_expired_lease`.
abbrev pub current_row : ExpiredTaskLease → ℕ → List Task → Option Task
current_row lease now tasks = elim (find_task lease.task_id tasks) [
  | none ↦ none
  | some t ↦ if is_lease lease now t then some t else none
]

-- `TaskRepository.recover_expired_lease`
unfoldable pub recover_expired_lease :
    ExpiredTaskLease → Option ℕ → ℕ → M (Option RecoveredTaskLease)
recover_expired_lease lease next_attempt_at now = do
  s ← get
  elim (current_row lease now s.tasks) [
    | none ↦ pure none
    | some t ↦ (do
      let retry_count = t.retry_count + 1
      let target = recovery_status t.status retry_count t.max_retries
      guard (not (status_eq target retry && not (is_some next_attempt_at))) value_error
      recover_writes lease target retry_count next_attempt_at now)
  ]
