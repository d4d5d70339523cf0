-- ===== src/Updates/Model.antt =====
-- `models/update_operation.py` and the table of `repositories/update_operations.py`.
use media_sync.Prelude.{ℕ, String, Bool, true, false, ◌&&◌, ◌||◌, not, Option, List, ◌==◌, is_some}

-- UPDATE_OPERATION_STATUSES
pub data UpdateStatus : Type 0 where
  checking available pulling draining handoff snapshotting switching verifying rolling_back success
        failed rolled_back rollback_failed cancelled :
      UpdateStatus

abbrev pub status_code : UpdateStatus → ℕ
status_code checking = 0
status_code available = 1
status_code pulling = 2
status_code draining = 3
status_code handoff = 4
status_code snapshotting = 5
status_code switching = 6
status_code verifying = 7
status_code rolling_back = 8
status_code success = 9
status_code failed = 10
status_code rolled_back = 11
status_code rollback_failed = 12
status_code cancelled = 13

abbrev pub update_status_eq : UpdateStatus → UpdateStatus → Bool
update_status_eq a b = status_code a == status_code b

-- TERMINAL_UPDATE_OPERATION_STATUSES
unfoldable pub is_over : UpdateStatus → Bool
is_over success = true
is_over failed = true
is_over rolled_back = true
is_over rollback_failed = true
is_over cancelled = true
is_over _ = false

-- ALLOWED_UPDATE_TRANSITIONS, one row for each source status.
unfoldable pub can_update : UpdateStatus → UpdateStatus → Bool
can_update checking b =
    update_status_eq b available || update_status_eq b failed || update_status_eq b cancelled
can_update available b =
    update_status_eq b pulling || update_status_eq b failed || update_status_eq b cancelled
can_update pulling b =
    update_status_eq b draining || update_status_eq b failed || update_status_eq b cancelled
can_update draining b =
    update_status_eq b handoff || update_status_eq b failed || update_status_eq b cancelled
can_update handoff b = update_status_eq b snapshotting || update_status_eq b failed
can_update snapshotting b = update_status_eq b switching || update_status_eq b rolling_back
can_update switching b = update_status_eq b verifying || update_status_eq b rolling_back
can_update verifying b = update_status_eq b success || update_status_eq b rolling_back
can_update rolling_back b = update_status_eq b rolled_back || update_status_eq b rollback_failed
can_update _ b = false

-- A row of `update_operations`. `active_slot` is "global" or null, so it is a Bool.
pub record UpdateOperation : Type 0 where
  pub id : ℕ
  pub operation_id : String
  pub status : UpdateStatus
  pub active_slot : Bool
  pub source_version : String
  pub target_version : Option String
  pub target_digest : Option String
  pub error_code : Option String
  pub error_message : Option String
  pub completed_at : Option ℕ
  pub created_at : ℕ

-- ck_update_operations_active_lifecycle
abbrev pub passes_lifecycle : UpdateOperation → Bool
passes_lifecycle o =
    (o.active_slot && not (is_some o.completed_at)) || (not o.active_slot && is_some o.completed_at)

-- The table, in the order of insertion, and its next primary key.
pub record Operations : Type 0 where
  pub rows : List UpdateOperation
  pub next_id : ℕ

-- What the repository raises.
pub data UpdateError : Type 0 where
  value_error : UpdateError
  active_conflict : UpdateError
  state_error : UpdateError
  -- trg_update_operations_terminal_immutable
  immutable_row : UpdateError
