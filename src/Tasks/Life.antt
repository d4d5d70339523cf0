-- ===== src/Tasks/Life.antt =====
-- What the engine promises of one task, said without the code's rows and tests: who holds it, when it
-- is ready, and what a claim, a heartbeat, an end and a recovery leave in its row. The code is
-- `repositories/tasks.py`.
pub mod Rows
pub mod Steps
pub mod Promises
pub mod Examples
use media_sync.Prelude.{
  ℕ, ◌+◌, ◌<◌, ◌≤◌, String, ◌≡◌, ◌≢◌, Bool, true, false, Option, none, some, ◌⊎◌, coalesce,
}
use media_sync.Tasks.Status.{
  TaskStatus, pending, running, retry, waiting_credential, cancel_requested, success, failed,
  cancelled, RunStatus,
}
use media_sync.Tasks.Json.{Fields}
use media_sync.Tasks.Model.{Task, TaskRun}
use media_sync.Tasks.Repository.Finish.{FinishArgs}
use media_sync.Tasks.Repository.Recover.{ExpiredTaskLease}

-- The work that a task stands for, which stays the same for its whole life.
pub record SameWork (t t' : Task) : Type 0 where
  pub id : t'.id ≡ t.id
  pub type : t'.type ≡ t.type
  pub trigger : t'.trigger_type ≡ t.trigger_type
  pub account : t'.account_id ≡ t.account_id
  pub subscription : t'.subscription_id ≡ t.subscription_id
  pub file : t'.file_id ≡ t.file_id
  pub version : t'.payload_version ≡ t.payload_version
  pub payload : t'.payload ≡ t.payload
  pub key : t'.idempotency_key ≡ t.idempotency_key
  pub priority : t'.priority ≡ t.priority
  pub budget : t'.max_retries ≡ t.max_retries
  pub since : t'.created_at ≡ t.created_at

-- Nobody holds the task.
pub record IsUnowned (t : Task) : Type 0 where
  pub worker : t.locked_by ≡ none
  pub token : t.lock_token ≡ none
  pub moment : t.locked_at ≡ none
  pub lease : t.lease_until ≡ none

-- The worker holds the task by this token until `until`.
pub record IsHeldBy (worker_id lock_token : String) (until : ℕ) (t : Task) : Type 0 where
  pub worker : t.locked_by ≡ some worker_id
  pub token : t.lock_token ≡ some lock_token
  pub lease : t.lease_until ≡ some until

-- A moment for the next attempt was not set, or it has come.
abbrev pub IsRipe : ℕ → Task → Type 0
IsRipe now t = (t.next_attempt_at ≡ none) ⊎ ((m : ℕ) × (t.next_attempt_at ≡ some m) × (m ≤ now))

-- A task that a worker may take: a ripe one that waits, or one whose cancellation nobody carries out.
pub record IsReady (now : ℕ) (t : Task) : Type 0 where
  pub free : IsUnowned t
  pub waits :
      (((t.status ≡ pending) ⊎ (t.status ≡ retry)) × IsRipe now t) ⊎ (t.status ≡ cancel_requested)

-- A claim.
pub record IsClaimed (worker_id lock_token : String) (now until : ℕ) (t t' : Task) : Type 0 where
  pub same : SameWork t t'
  pub held : IsHeldBy worker_id lock_token until t'
  pub moment : t'.locked_at ≡ some now
  pub retries : t'.retry_count ≡ t.retry_count
  pub unscheduled : t'.next_attempt_at ≡ none
  pub status :
      ((t.status ≡ cancel_requested) × (t'.status ≡ cancel_requested))
      ⊎ ((t.status ≢ cancel_requested) × (t'.status ≡ running))

-- A heartbeat.
pub record IsExtended (until : ℕ) (t t' : Task) : Type 0 where
  pub same : SameWork t t'
  pub worker : t'.locked_by ≡ t.locked_by
  pub token : t'.lock_token ≡ t.lock_token
  pub lease : t'.lease_until ≡ some until
  pub status : t'.status ≡ t.status
  pub retries : t'.retry_count ≡ t.retry_count

-- Of the statuses at the end of a run, those that are final have a moment of completion ...
abbrev pub completed_in : TaskStatus → ℕ → Option ℕ
completed_in success m = some m
completed_in failed m = some m
completed_in cancelled m = some m
completed_in _ m = none

-- ... those that wait for another attempt keep the moment for it ...
abbrev pub scheduled_in : TaskStatus → Option ℕ → Option ℕ
scheduled_in pending at = at
scheduled_in retry at = at
scheduled_in _ at = none

-- ... and a task without a credential is blocked.
abbrev pub blocked_in : TaskStatus → ℕ → Option ℕ
blocked_in waiting_credential m = some m
blocked_in _ m = none

-- The end of a run; `m` is the moment of the end.
pub record IsEnded (a : FinishArgs) (m : ℕ) (t t' : Task) : Type 0 where
  pub same : SameWork t t'
  pub free : IsUnowned t'
  pub status : t'.status ≡ a.task_status
  pub error_code : t'.last_error_code ≡ a.error_code
  pub error_message : t'.last_error_message ≡ a.error_message
  pub completed : t'.completed_at ≡ completed_in a.task_status m
  pub scheduled : t'.next_attempt_at ≡ scheduled_in a.task_status a.next_attempt_at
  pub blocked : t'.blocked_at ≡ blocked_in a.task_status m
  pub retries :
      ((a.consume_retry_budget ≡ true) × (t'.retry_count ≡ t.retry_count + 1))
      ⊎ ((a.consume_retry_budget ≡ false) × (t'.retry_count ≡ t.retry_count))

-- Runs keep what identifies them.
pub record SameRun (r r' : TaskRun) : Type 0 where
  pub id : r'.id ≡ r.id
  pub task : r'.task_id ≡ r.task_id
  pub number : r'.run_number ≡ r.run_number
  pub worker : r'.worker_id ≡ r.worker_id
  pub token : r'.lock_token ≡ r.lock_token
  pub since : r'.started_at ≡ r.started_at

pub record IsEndedRun (a : FinishArgs) (m : ℕ) (r r' : TaskRun) : Type 0 where
  pub same : SameRun r r'
  pub status : r'.status ≡ a.run_status
  pub finished : r'.finished_at ≡ some m
  pub duration : r'.duration_ms ≡ a.duration_ms
  pub summary : r'.result_summary ≡ a.result_summary
  pub error_code : r'.error_code ≡ a.error_code
  pub error_message : r'.error_message ≡ a.error_message
  pub metrics :
      ((a.metrics ≡ none) × (r'.metrics ≡ r.metrics))
      ⊎ ((f : Fields) × (a.metrics ≡ some f) × (r'.metrics ≡ f))

-- The status after a recovery: a cancellation stays asked for, a retry is planned while the budget
-- allows for one more, and then the task has failed.
abbrev pub Verdict : Option ℕ → ℕ → Task → Task → Type 0
Verdict next now t t' =
    ((t.status ≡ cancel_requested)
      × (t'.status ≡ cancel_requested)
      × (t'.next_attempt_at ≡ none)
      × (t'.completed_at ≡ none))
    ⊎ ((t.status ≡ running)
        × (t.retry_count + 1 ≤ t.max_retries)
        × (t'.status ≡ retry)
        × (t'.next_attempt_at ≡ next)
        × (t'.completed_at ≡ none))
    ⊎ ((t.status ≡ running)
        × (t.max_retries ≤ t.retry_count)
        × (t'.status ≡ failed)
        × (t'.next_attempt_at ≡ none)
        × (t'.completed_at ≡ some now))

-- The recovery of a task whose worker let its lease run out.
pub record IsRecovered (next : Option ℕ) (now : ℕ) (t t' : Task) : Type 0 where
  pub same : SameWork t t'
  pub free : IsUnowned t'
  pub retries : t'.retry_count ≡ t.retry_count + 1
  pub error_code : t'.last_error_code ≡ some "WORKER_LEASE_EXPIRED"
  pub verdict : Verdict next now t t'

pub record IsLost (now : ℕ) (r r' : TaskRun) : Type 0 where
  pub same : SameRun r r'
  pub status : r'.status ≡ RunStatus.lost
  pub finished : r'.finished_at ≡ some now
  pub error_code : r'.error_code ≡ some "WORKER_LEASE_EXPIRED"

-- The lease is the one that the task has, and it has run out.
pub record IsOverdue (lease : ExpiredTaskLease) (now : ℕ) (t : Task) : Type 0 where
  pub status : t.status ≡ lease.status
  pub worker : t.locked_by ≡ some lease.worker_id
  pub token : t.lock_token ≡ some lease.lock_token
  pub until : ℕ
  pub lease_until : t.lease_until ≡ some until
  pub past : until ≤ now
