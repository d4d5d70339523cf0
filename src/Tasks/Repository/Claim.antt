-- ===== src/Tasks/Repository/Claim.antt =====
-- `TaskRepository.claim_next`, `heartbeat`, and the order of the queue.
use media_sync.Prelude.{
  ℕ, String, ◌+◌, Bool, ◌&&◌, ◌||◌, not, Option, none, some, List, [], ◌∷◌, ◌==◌, if◌then◌else◌,
  ltb, is_empty, is_some, is_due, is_after, holds, coalesce, select,
}
use media_sync.Prelude.Sorting.{sort}
use media_sync.Tasks.Status.{
  running, cancel_requested, status_eq, is_queue, is_leased, is_claimable_status,
}
use media_sync.Tasks.Model.{Task, TaskRun, ownership_is_clear}
use media_sync.Tasks.Transitions.{value_error, ownership_lost}
use media_sync.Tasks.Session.{
  M, ◌>>=◌, ◌>>◌, guard, pure, get, expect, require_task, require_task_run, update_task,
  update_runs,
}
use media_sync.Tasks.Repository.Values.{validate_owner_arguments}
use media_sync.Tasks.Repository.Create.{is_active_of, create_run}

-- `or_(Task.next_attempt_at.is_(None), Task.next_attempt_at <= now)`
abbrev pub is_ripe : ℕ → Task → Bool
is_ripe now t = not (is_some t.next_attempt_at) || is_due t.next_attempt_at now

-- `is_claimable`
abbrev pub is_claimable : ℕ → Task → Bool
is_claimable now t =
    is_queue t.status && is_ripe now t && ownership_is_clear t
    || status_eq t.status cancel_requested && ownership_is_clear t

-- `order_by(priority desc, coalesce(next_attempt_at, created_at), created_at, id)`
abbrev pub queued_at : Task → ℕ
queued_at t = coalesce t.next_attempt_at t.created_at

unfoldable pub precedes : Task → Task → Bool
precedes a b =
    ltb b.priority a.priority
    || (a.priority == b.priority)
      && (ltb (queued_at a) (queued_at b)
          || (queued_at a == queued_at b)
            && (ltb a.created_at b.created_at || (a.created_at == b.created_at) && ltb a.id b.id))

abbrev pub head_of : List Task → Option Task
head_of [] = none
head_of (t ∷ ts) = some t

-- `candidate_id`: the first claimable row in the queue's order.
unfoldable pub candidate : ℕ → List Task → Option Task
candidate now tasks = head_of (sort precedes (select (is_claimable now) tasks))

-- The condition that the UPDATE repeats.
abbrev pub is_still_claimable : ℕ → Task → Bool
is_still_claimable now t =
    is_claimable_status t.status
    && ownership_is_clear t
    && (status_eq t.status cancel_requested || is_ripe now t)

-- What a claim writes.
unfoldable pub claim_row : String → String → ℕ → ℕ → Task → Task
claim_row worker_id lock_token now lease_until t = record t {
  status = if status_eq t.status cancel_requested then cancel_requested else running;
  locked_by = some worker_id;
  lock_token = some lock_token;
  locked_at = some now;
  lease_until = some lease_until;
  next_attempt_at = none;
  updated_at = now;
}

pub record TaskClaim : Type 0 where
  pub task : Task
  pub task_run : TaskRun
  pub lock_token : String
  pub lease_until : ℕ

-- The body of `begin_nested` for a candidate.
unfoldable pub claim_task : String → String → ℕ → ℕ → ℕ → M (Option TaskClaim)
claim_task worker_id lock_token now lease_until task_id = do
  hit ←
      update_task task_id (is_still_claimable now) (claim_row worker_id lock_token now lease_until)
  elim hit [
    | none ↦ pure none
    | some i ↦ (do
      task ← require_task i
      run ← create_run i worker_id lock_token now (some now)
      pure (
          some (record {
            task = task;
            task_run = run;
            lock_token = lock_token;
            lease_until = lease_until;
          })))
  ]

-- `TaskRepository.claim_next`. `lock_token` is the value of `secrets.token_hex`.
unfoldable pub claim_next : String → String → ℕ → ℕ → M (Option TaskClaim)
claim_next worker_id lock_token lease_duration now = do
  validate_owner_arguments worker_id lease_duration
  s ← get
  elim (candidate now s.tasks) [
    | none ↦ pure none
    | some t ↦ claim_task worker_id lock_token now (now + lease_duration) t.id
  ]

-- The row of an owner whose lease has not run out.
abbrev pub is_held : String → String → ℕ → Task → Bool
is_held worker_id lock_token now t =
    holds t.locked_by worker_id && holds t.lock_token lock_token && is_after t.lease_until now

-- The running run of an owner.
abbrev pub is_owners_run : ℕ → String → String → TaskRun → Bool
is_owners_run task_id worker_id lock_token r =
    is_active_of task_id r && holds r.worker_id worker_id && holds r.lock_token lock_token

-- What a heartbeat writes to the task and to its run.
abbrev pub extend_row : ℕ → ℕ → Task → Task
extend_row lease_duration now t = record t {
  lease_until = some (now + lease_duration);
  updated_at = now;
}

abbrev pub beat_row : ℕ → TaskRun → TaskRun
beat_row now r = record r { last_heartbeat_at = some now; updated_at = now }

-- `TaskRepository.heartbeat`
unfoldable pub heartbeat : ℕ → String → String → ℕ → ℕ → M (Task × TaskRun)
heartbeat task_id worker_id lock_token lease_duration now = do
  validate_owner_arguments worker_id lease_duration
  guard (not (is_empty lock_token)) value_error
  hit ←
      update_task task_id (λ t. is_leased t.status && is_held worker_id lock_token now t)
        (extend_row lease_duration now)
  i ← expect hit (ownership_lost task_id worker_id)
  beat ← update_runs (is_owners_run task_id worker_id lock_token) (beat_row now)
  run_id ← expect beat (ownership_lost task_id worker_id)
  task ← require_task i
  run ← require_task_run run_id
  pure (task, run)
