-- ===== src/Tasks/Model.antt =====
-- The rows of `tasks` and `task_runs` (`backend/app/models/task.py`). A moment is a number of
-- microseconds since an epoch; a nullable column is an `Option`.
use media_sync.Prelude.{
  ℕ, String, Bool, ◌&&◌, ◌||◌, not, Option, List, is_some, text_eq, true, none, some, leb,
}
use media_sync.Tasks.Status.{TaskStatus, RunStatus}
use media_sync.Tasks.Json.{Fields}

-- The columns of `Task` and of `TimestampMixin`.
pub record Task : Type 0 where
  pub id : ℕ
  pub account_id : Option ℕ
  pub subscription_id : Option ℕ
  pub file_id : Option ℕ
  pub type : String
  pub trigger_type : String
  pub status : TaskStatus
  pub priority : ℕ
  pub payload_version : ℕ
  pub payload : Fields
  pub idempotency_key : Option String
  pub retry_count : ℕ
  pub max_retries : ℕ
  pub next_attempt_at : Option ℕ
  pub blocked_reason : Option String
  pub blocked_at : Option ℕ
  pub cancel_requested_at : Option ℕ
  pub locked_by : Option String
  pub lock_token : Option String
  pub locked_at : Option ℕ
  pub lease_until : Option ℕ
  pub last_error_code : Option String
  pub last_error_message : Option String
  pub completed_at : Option ℕ
  pub provider_write_intent_at : Option ℕ
  pub provider_operation_id : Option String
  pub provider_operation_status : Option String
  pub provider_result : Option Fields
  pub message : Option String
  pub error_code : Option String
  pub attempt_count : ℕ
  pub max_attempts : ℕ
  pub started_at : Option ℕ
  pub finished_at : Option ℕ
  pub created_at : ℕ
  pub updated_at : ℕ

-- The columns of `TaskRun` and of `TimestampMixin`.
pub record TaskRun : Type 0 where
  pub id : ℕ
  pub task_id : ℕ
  pub run_number : ℕ
  pub worker_id : Option String
  pub lock_token : Option String
  pub status : RunStatus
  pub started_at : ℕ
  pub finished_at : Option ℕ
  pub last_heartbeat_at : Option ℕ
  pub duration_ms : Option ℕ
  pub result_summary : Option String
  pub error_code : Option String
  pub error_message : Option String
  pub metrics : Fields
  pub created_at : ℕ
  pub updated_at : ℕ

-- The two tables, and the primary keys that the next inserts take.
pub record Store : Type 0 where
  pub tasks : List Task
  pub runs : List TaskRun
  pub next_task_id : ℕ
  pub next_run_id : ℕ

-- `ownership_is_clear`: the four ownership columns are null.
abbrev pub ownership_is_clear : Task → Bool
ownership_is_clear t =
    not (is_some t.locked_by)
    && not (is_some t.lock_token)
    && not (is_some t.locked_at)
    && not (is_some t.lease_until)

-- `ownership_is_complete`: none of them is.
abbrev pub ownership_is_complete : Task → Bool
ownership_is_complete t =
    is_some t.locked_by && is_some t.lock_token && is_some t.locked_at && is_some t.lease_until

-- ck_tasks_provider_operation_status
abbrev pub is_provider_status : Option String → Bool
is_provider_status none = true
is_provider_status (some k) =
    text_eq k "intent" || text_eq k "pending" || text_eq k "succeeded" || text_eq k "uncertain"

-- The CHECK constraints of `tasks`; those on numbers that may not be negative hold of ℕ.
abbrev pub passes_checks : Task → Bool
passes_checks t =
    leb 1 t.payload_version
    && is_provider_status t.provider_operation_status
    && (ownership_is_clear t || ownership_is_complete t)
