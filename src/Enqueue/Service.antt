-- ===== src/Enqueue/Service.antt =====
-- `_active_task` and `enqueue_manual_scan`.
use media_sync.Prelude.{
  ℕ, String, Bool, true, false, ◌&&◌, ◌||◌, not, Option, none, some, List, [], ◌∷◌, ◌==◌, ltb,
  select, text_eq,
}
use media_sync.Prelude.Sorting.{sort}
use media_sync.Tasks.Status.{pending, is_terminal}
use media_sync.Tasks.Json.{end, field, bool}
use media_sync.Tasks.Model.{Task}
use media_sync.Tasks.Session.{M, ◌>>=◌, pure, get}
use media_sync.Tasks.Repository.Create.{create_task}

-- The columns of a subscription that are read here.
pub record Subscription : Type 0 where
  pub id : ℕ
  pub cloud_account_id : ℕ

pub record TaskEnqueueResult : Type 0 where
  pub task : Task
  pub created : Bool

-- A condition that is left out when its argument is None.
abbrev pub is_column : Option ℕ → Option ℕ → Bool
is_column none column = true
is_column (some k) none = false
is_column (some k) (some v) = v == k

-- The WHERE clause of `_active_task`.
abbrev pub is_active_task : String → Option ℕ → Option ℕ → Task → Bool
is_active_task task_type subscription_id file_id t =
    text_eq t.type task_type
    && not (is_terminal t.status)
    && is_column subscription_id t.subscription_id
    && is_column file_id t.file_id

-- The order of `_active_task`: the newest first.
abbrev pub is_later : Task → Task → Bool
is_later a b = ltb b.created_at a.created_at || (a.created_at == b.created_at) && ltb b.id a.id

abbrev pub head_task : List Task → Option Task
head_task [] = none
head_task (t ∷ ts) = some t

-- `_active_task`
unfoldable pub active_task : String → Option ℕ → Option ℕ → List Task → Option Task
active_task task_type subscription_id file_id ts =
    head_task (sort is_later (select (is_active_task task_type subscription_id file_id) ts))

-- A row with the defaults of its columns.
abbrev pub default_task : String → String → ℕ → Task
default_task type trigger_type now = record {
  id = 0;
  account_id = none;
  subscription_id = none;
  file_id = none;
  type = type;
  trigger_type = trigger_type;
  status = pending;
  priority = 0;
  payload_version = 1;
  payload = end;
  idempotency_key = none;
  retry_count = 0;
  max_retries = 3;
  next_attempt_at = none;
  blocked_reason = none;
  blocked_at = none;
  cancel_requested_at = none;
  locked_by = none;
  lock_token = none;
  locked_at = none;
  lease_until = none;
  last_error_code = none;
  last_error_message = none;
  completed_at = none;
  provider_write_intent_at = none;
  provider_operation_id = none;
  provider_operation_status = none;
  provider_result = none;
  message = none;
  error_code = none;
  attempt_count = 0;
  max_attempts = 3;
  started_at = none;
  finished_at = none;
  created_at = now;
  updated_at = now;
}

-- The task that a manual scan asks for.
unfoldable pub manual_scan : Subscription → Bool → ℕ → Task
manual_scan sub force_full now = record (default_task "scan" "manual" now) {
  account_id = some sub.cloud_account_id;
  subscription_id = some sub.id;
  payload = field "force_full" (bool force_full) end;
}

-- `enqueue_manual_scan`
unfoldable pub enqueue_manual_scan : Subscription → Bool → ℕ → M TaskEnqueueResult
enqueue_manual_scan sub force_full now = do
  s ← get
  elim (active_task "scan" (some sub.id) none s.tasks) [
    | some existing ↦ pure (record { task = existing; created = false })
    | none ↦ (do
      task ← create_task (some pending) (manual_scan sub force_full now)
      pure (record { task = task; created = true }))
  ]
