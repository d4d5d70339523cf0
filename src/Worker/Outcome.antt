-- ===== src/Worker/Outcome.antt =====
-- What a handler is given and returns (`task_engine/handlers.py`).
use media_sync.Prelude.{
  ℕ, String, Bool, true, ◌&&◌, ◌||◌, not, Option, none, some, ◌==◌, ltb, is_some,
}
use media_sync.Tasks.Status.{TaskStatus}
use media_sync.Tasks.Json.{Fields}
use media_sync.Tasks.Model.{Task}

-- TaskOutcomeStatus
pub data OutcomeStatus : Type 0 where
  deferred success retry failed waiting_credential cancelled : OutcomeStatus

abbrev pub outcome_code : OutcomeStatus → ℕ
outcome_code OutcomeStatus.deferred = 0
outcome_code OutcomeStatus.success = 1
outcome_code OutcomeStatus.retry = 2
outcome_code OutcomeStatus.failed = 3
outcome_code OutcomeStatus.waiting_credential = 4
outcome_code OutcomeStatus.cancelled = 5

abbrev pub outcome_eq : OutcomeStatus → OutcomeStatus → Bool
outcome_eq a b = outcome_code a == outcome_code b

-- `retry_after` is a number of microseconds.
pub record TaskOutcome : Type 0 where
  pub status : OutcomeStatus
  pub summary : Option String
  pub error_code : Option String
  pub error_message : Option String
  pub metrics : Option Fields
  pub retry_after : Option ℕ
  pub blocked_reason : Option String

abbrev pub is_positive : Option ℕ → Bool
is_positive none = true
is_positive (some d) = ltb 0 d

-- `__post_init__`: an outcome that fails this is never built.
unfoldable pub is_valid_outcome : TaskOutcome → Bool
is_valid_outcome o =
    is_positive o.retry_after
    && (not (outcome_eq o.status OutcomeStatus.retry) || is_some o.error_code)
    && (not (outcome_eq o.status OutcomeStatus.waiting_credential) || is_some o.blocked_reason)
    && (outcome_eq o.status OutcomeStatus.retry
        || outcome_eq o.status OutcomeStatus.deferred
        || not (is_some o.retry_after))
    && (outcome_eq o.status OutcomeStatus.waiting_credential || not (is_some o.blocked_reason))

-- An outcome with a status and a summary alone.
abbrev pub plain_outcome : OutcomeStatus → String → TaskOutcome
plain_outcome status summary = record {
  status = status;
  summary = some summary;
  error_code = none;
  error_message = none;
  metrics = none;
  retry_after = none;
  blocked_reason = none;
}

pub record TaskInvocation : Type 0 where
  pub task_id : ℕ
  pub task_run_id : ℕ
  pub task_type : String
  pub payload_version : ℕ
  pub payload : Fields
  pub trigger_type : String
  pub account_id : Option ℕ
  pub subscription_id : Option ℕ
  pub file_id : Option ℕ
  pub claimed_status : TaskStatus
  pub retry_count : ℕ
  pub max_retries : ℕ
  pub provider_write_intent_at : Option ℕ
  pub provider_operation_id : Option String
  pub provider_operation_status : Option String
  pub provider_result : Option Fields

-- `TaskInvocation.from_task`. Freezing a JSON value changes no value.
unfoldable pub from_task : Task → ℕ → TaskInvocation
from_task t run_id = record {
  task_id = t.id;
  task_run_id = run_id;
  task_type = t.type;
  payload_version = t.payload_version;
  payload = t.payload;
  trigger_type = t.trigger_type;
  account_id = t.account_id;
  subscription_id = t.subscription_id;
  file_id = t.file_id;
  claimed_status = t.status;
  retry_count = t.retry_count;
  max_retries = t.max_retries;
  provider_write_intent_at = t.provider_write_intent_at;
  provider_operation_id = t.provider_operation_id;
  provider_operation_status = t.provider_operation_status;
  provider_result = t.provider_result;
}
