-- ===== src/Tasks/Status.antt =====
-- The statuses of `backend/app/models/task.py` (TASK_STATUSES, TASK_RUN_STATUSES), and the groups
-- of statuses that `repositories/tasks.py` and `task_engine/transitions.py` name. A status column
-- holds one of these by a CHECK constraint, so an unknown text never reaches the code.
use media_sync.Prelude.{ℕ, ◌≡◌, Bool, true, false, ◌==◌, ◌||◌, arith}

pub data TaskStatus : Type 0 where
  pending running retry waiting_credential cancel_requested success failed cancelled : TaskStatus

pub data RunStatus : Type 0 where
  running success failed blocked lost cancelled : RunStatus

abbrev pub task_code : TaskStatus → ℕ
task_code TaskStatus.pending = 0
task_code TaskStatus.running = 1
task_code TaskStatus.retry = 2
task_code TaskStatus.waiting_credential = 3
task_code TaskStatus.cancel_requested = 4
task_code TaskStatus.success = 5
task_code TaskStatus.failed = 6
task_code TaskStatus.cancelled = 7

abbrev pub run_code : RunStatus → ℕ
run_code RunStatus.running = 0
run_code RunStatus.success = 1
run_code RunStatus.failed = 2
run_code RunStatus.blocked = 3
run_code RunStatus.lost = 4
run_code RunStatus.cancelled = 5

-- The texts are compared; here, the numbers of the constructors.
abbrev pub status_eq : TaskStatus → TaskStatus → Bool
status_eq a b = task_code a == task_code b

abbrev pub run_status_eq : RunStatus → RunStatus → Bool
run_status_eq a b = run_code a == run_code b

pub status_eq→≡ : (a b : TaskStatus) → status_eq a b ≡ true → a ≡ b
status_eq→≡ a b h = ground arith

pub run_status_eq→≡ : (a b : RunStatus) → run_status_eq a b ≡ true → a ≡ b
run_status_eq→≡ a b h = ground arith

-- QUEUE_TASK_STATUSES
abbrev pub is_queue : TaskStatus → Bool
is_queue TaskStatus.pending = true
is_queue TaskStatus.retry = true
is_queue _ = false

-- CLAIMABLE_TASK_STATUSES
abbrev pub is_claimable_status : TaskStatus → Bool
is_claimable_status s = is_queue s || status_eq s TaskStatus.cancel_requested

-- LEASED_TASK_STATUSES
abbrev pub is_leased : TaskStatus → Bool
is_leased TaskStatus.running = true
is_leased TaskStatus.cancel_requested = true
is_leased _ = false

-- TERMINAL_TASK_STATUSES
abbrev pub is_terminal : TaskStatus → Bool
is_terminal TaskStatus.success = true
is_terminal TaskStatus.failed = true
is_terminal TaskStatus.cancelled = true
is_terminal _ = false

-- TERMINAL_TASK_RUN_STATUSES
abbrev pub is_run_terminal : RunStatus → Bool
is_run_terminal RunStatus.running = false
is_run_terminal _ = true
