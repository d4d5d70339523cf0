-- ===== src/Tasks/Repository/Values.antt =====
-- `TaskRepository.transition`, the column values that a change of status writes, and the argument
-- checks that the operations share.
use media_sync.Prelude.{
  ℕ, String, Bool, ◌||◌, ◌&&◌, not, Option, none, some, if◌then◌else◌, ltb, is_empty, coalesce,
}
use media_sync.Tasks.Status.{
  TaskStatus, pending, running, retry, waiting_credential, cancel_requested, status_eq, is_leased,
  is_terminal,
}
use media_sync.Tasks.Model.{Task}
use media_sync.Tasks.Transitions.{
  can_transition, value_error, invalid_transition, state_conflict, ownership_required,
}
use media_sync.Tasks.Session.{M, ◌>>=◌, ◌>>◌, guard, raise, require_task, update_task}

-- The dictionary of `_task_transition_values`. A column that the dictionary leaves out is `none`.
pub record TaskValues : Type 0 where
  pub status : TaskStatus
  pub last_error_code : Option String
  pub last_error_message : Option String
  pub next_attempt_at : Option ℕ
  pub completed_at : Option ℕ
  pub blocked : Option (Option String × Option ℕ)
  pub cancel_requested_at : Option ℕ

-- `next_attempt_at if target_status in {"pending", "retry"} else None`
abbrev pub scheduled : TaskStatus → Option ℕ → Option ℕ
scheduled target at = if status_eq target pending || status_eq target retry then at else none

abbrev pub completion : TaskStatus → ℕ → Option ℕ
completion target at = if is_terminal target then some at else none

abbrev pub blocking : TaskStatus → Option String → ℕ → Option (Option String × Option ℕ)
blocking target reason at =
    if status_eq target waiting_credential
    then some (reason, some at)
    else if status_eq target cancel_requested
    then none
    else some (none, none)

-- `TaskRepository._task_transition_values`
unfoldable pub task_transition_values :
    TaskStatus → ℕ → Option String → Option String → Option String → Option ℕ → TaskValues
task_transition_values target occurred_at reason error_code error_message next_attempt_at = record {
  status = target;
  last_error_code = error_code;
  last_error_message = error_message;
  next_attempt_at = scheduled target next_attempt_at;
  completed_at = completion target occurred_at;
  blocked = blocking target reason occurred_at;
  cancel_requested_at = if status_eq target cancel_requested then some occurred_at else none;
}

abbrev pub written {ℓ} : {A : Type ℓ} → Option A → A → A
written none old = old
written (some new) old = new

-- `UPDATE … SET` by the dictionary.
unfoldable pub apply_values : TaskValues → Task → Task
apply_values v t =
    let (reason, at) = written v.blocked (t.blocked_reason, t.blocked_at) in
    record t {
      status = v.status;
      last_error_code = v.last_error_code;
      last_error_message = v.last_error_message;
      next_attempt_at = v.next_attempt_at;
      completed_at = v.completed_at;
      blocked_reason = reason;
      blocked_at = at;
      cancel_requested_at = elim v.cancel_requested_at [
        | none ↦ t.cancel_requested_at
        | some m ↦ some m
      ];
    }

-- The columns that give a task up.
unfoldable pub release : ℕ → Task → Task
release now t = record t {
  locked_by = none;
  lock_token = none;
  locked_at = none;
  lease_until = none;
  updated_at = now;
}

-- `TaskRepository._validate_owner_arguments`; a duration is a number of microseconds.
unfoldable pub validate_owner_arguments : String → ℕ → M (Unit {0})
validate_owner_arguments worker_id lease_duration = do
  guard (not (is_empty worker_id)) value_error
  guard (ltb 0 lease_duration) value_error

-- `validate_transition`
unfoldable pub validate_transition : TaskStatus → TaskStatus → M (Unit {0})
validate_transition source target =
    guard (can_transition source target) (invalid_transition source target)

-- The keyword arguments of `transition`.
pub record TransitionArgs : Type 0 where
  pub expected_status : TaskStatus
  pub target_status : TaskStatus
  pub occurred_at : Option ℕ
  pub blocked_reason : Option String
  pub error_code : Option String
  pub error_message : Option String
  pub next_attempt_at : Option ℕ

abbrev pub needs_ownership : TaskStatus → TaskStatus → Bool
needs_ownership expected target =
    status_eq target running || is_leased expected && not (status_eq target cancel_requested)

-- The values of `transition`: a repeated request keeps the first moment.
unfoldable pub transition_row : TransitionArgs → ℕ → Task → Task
unfolding task_transition_values apply_values
transition_row a now t =
    let values =
      task_transition_values a.target_status now a.blocked_reason a.error_code a.error_message
        a.next_attempt_at in
    let t' = apply_values values t in
    record t' {
      updated_at = now;
      cancel_requested_at =
          if status_eq a.target_status cancel_requested
          then some (coalesce t.cancel_requested_at now)
          else t'.cancel_requested_at;
    }

-- `TaskRepository.transition`; `clock` is the moment that `self._clock()` gives.
unfoldable pub transition : ℕ → ℕ → TransitionArgs → M Task
unfolding validate_transition
transition clock task_id a = do
  task ← require_task task_id
  guard (status_eq task.status a.expected_status) (state_conflict task.id task.status)
  validate_transition a.expected_status a.target_status
  guard (not (needs_ownership a.expected_status a.target_status)) ownership_required
  let now = coalesce a.occurred_at clock
  hit ← update_task task_id (λ t. status_eq t.status a.expected_status) (transition_row a now)
  elim hit [
    | none ↦ (do actual ← require_task task_id; raise (state_conflict task_id actual.status))
    | some i ↦ require_task i
  ]
