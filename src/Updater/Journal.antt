-- ===== src/Updater/Journal.antt =====
-- `UpdaterResultJournal` of `services/update_snapshot_service.py`: one file for each operation, which
-- a write replaces as a whole. A file is kept as what reading it finds; `datetime.now` is an argument.
pub mod Inversion
pub mod System
pub mod Effects
pub mod Sound
pub mod Writes
pub mod Later
pub mod Potential
pub mod Advance
pub mod Model
use media_sync.Prelude.{
  ℕ, ◌+◌, String, Bool, true, false, ◌&&◌, ◌||◌, not, Option, none, some, ◌==◌, leb, if◌then◌else◌,
  coalesce, is_some, text_eq,
}
use media_sync.Updates.Recovery.{UpdaterStatus, snapshotting, rolling_back}
use media_sync.Updater.Text.{Unicode, codes, is_operation_id}
use media_sync.Updater.Errors.{
  UpdaterError, snapshot_error, handoff_error, bad_transition, Result, ok, err, ◌>>=◌, ◌>>◌, refuse,
}
use media_sync.Updater.Handoff.{HandoffDocument, validate_handoff_document}
use media_sync.Updater.Checkpoint.{
  Checkpoint, initialized, rollback_begun, index, is_rollback, is_status, is_terminal,
  can_transition,
}
use Model.{
  UpdaterResultV1, UpdaterResultV2, now_utc, max_recovery_generation, validate_public_error,
  same_bool, is_valid,
}

-- What a path of the directory holds: a result of either version, or what `read` refuses with the
-- message given (no regular file, no JSON object, too large, another version).
pub data Entry : Type 0 where
  v1_entry : UpdaterResultV1 → Entry
  v2_entry : UpdaterResultV2 → Entry
  bad_entry : (message : String) → Entry

-- The directory: `{operation_id}.json` for each operation.
abbrev pub Directory : Type 0
Directory = String → Option Entry

-- `_write`
abbrev pub write : String → Entry → Directory → Directory
write operation_id entry d k = if text_eq k operation_id then some entry else d k

-- `validate_operation_id`
unfoldable pub validate_operation_id : String → Result (Unit {0})
validate_operation_id text = refuse (not (is_operation_id (codes text))) (handoff_error "更新操作标识无效")

-- The record that `start` builds.
unfoldable pub initial_v1 : String → ℕ → UpdaterResultV1
initial_v1 operation_id now = record {
  operation_id = operation_id;
  sequence = 1;
  status = snapshotting;
  updated_at = now_utc now;
  error_code = none;
  public_error_message = none;
}

-- `start`
unfoldable pub start : String → ℕ → Directory → Result (UpdaterResultV1 × Directory)
unfolding validate_operation_id initial_v1
start operation_id now d = do
  validate_operation_id operation_id
  refuse (is_some (d operation_id)) (snapshot_error "updater 结果日志已存在")
  ok (initial_v1 operation_id now, write operation_id (v1_entry (initial_v1 operation_id now)) d)

-- The record that `start_v2` builds.
unfoldable pub initial_v2 : HandoffDocument → String → ℕ → UpdaterResultV2
initial_v2 document coordinator now = record {
  operation_id = document.operation_id;
  sequence = 1;
  status = snapshotting;
  checkpoint = initialized;
  recovery_generation = 0;
  coordinator_container_id = coordinator;
  source_container_id = document.current_container_id;
  source_image_id = document.source_image_id;
  source_container_name = document.candidate.name;
  target_image = document.target_image;
  target_revision = document.target_revision;
  candidate_token_hash = none;
  candidate_container_id = none;
  rollback_started = false;
  updated_at = now_utc now;
  error_code = none;
  public_error_message = none;
}

-- `UpdaterResultV2.model_validate`, with the error that a write raises instead.
abbrev pub validated :
    Unicode → UpdaterResultV2 → String → Directory → Result (UpdaterResultV2 × Directory)
validated u r message d =
    refuse (not (is_valid u r)) (snapshot_error message)
    >> ok (r, write r.operation_id (v2_entry r) d)

-- `start_v2`
unfoldable pub start_v2 :
    Unicode → HandoffDocument → String → ℕ → Directory → Result (UpdaterResultV2 × Directory)
unfolding initial_v2
start_v2 u document coordinator now d = do
  validate_handoff_document u document
  refuse (is_some (d document.operation_id)) (snapshot_error "updater 结果日志已存在")
  validated u (initial_v2 document coordinator now) "updater v2 初始结果无效" d

-- `read` of an entry: a result of version 2 is validated again.
unfoldable pub read_entry : Unicode → Option Entry → Result Entry
read_entry u none = err (snapshot_error "updater 结果日志不存在")
read_entry u (some (bad_entry message)) = err (snapshot_error message)
read_entry u (some (v1_entry r)) = ok (v1_entry r)
read_entry u (some (v2_entry r)) =
    if is_valid u r then ok (v2_entry r) else err (snapshot_error "updater 结果日志无效")

abbrev pub entry_operation : Entry → String
entry_operation (v1_entry r) = r.operation_id
entry_operation (v2_entry r) = r.operation_id
entry_operation (bad_entry message) = ""

-- `read`
unfoldable pub read : Unicode → String → Directory → Result Entry
unfolding read_entry validate_operation_id
read u operation_id d = do
  validate_operation_id operation_id
  entry ← read_entry u (d operation_id)
  refuse (not (text_eq (entry_operation entry) operation_id)) (snapshot_error "updater 结果日志操作标识不匹配")
  ok entry

-- The record that `transition` builds.
unfoldable pub moved_v1 :
    String → UpdaterResultV1 → UpdaterStatus → Option String → Option String → ℕ → UpdaterResultV1
moved_v1 operation_id current status error_code message now = record {
  operation_id = operation_id;
  sequence = current.sequence + 1;
  status = status;
  updated_at = now_utc now;
  error_code = error_code;
  public_error_message = message;
}

-- `transition` of an entry that was read.
unfoldable pub transition_entry :
    Unicode
    → String
    → UpdaterStatus
    → Option String
    → Option String
    → ℕ
    → Directory
    → Entry
    → Result (UpdaterResultV1 × Directory)
unfolding moved_v1
transition_entry u operation_id status error_code message now d (v1_entry current) = do
  refuse (is_terminal current.status) (snapshot_error "updater 终态结果不可修改")
  refuse (not (can_transition current.status status)) (bad_transition current.status status)
  validate_public_error u error_code message
  let r = moved_v1 operation_id current status error_code message now
  ok (r, write operation_id (v1_entry r) d)
transition_entry u operation_id status error_code message now d _ =
    err (snapshot_error "updater v2 结果必须使用检查点接口")

-- `transition`
unfoldable pub transition :
    Unicode
    → String
    → UpdaterStatus
    → Option String
    → Option String
    → ℕ
    → Directory
    → Result (UpdaterResultV1 × Directory)
unfolding transition_entry
transition u operation_id status error_code message now d = read u operation_id d >>= λ entry.
    transition_entry u operation_id status error_code message now d entry

abbrev pub expect_v2 : Entry → Result UpdaterResultV2
expect_v2 (v2_entry r) = ok r
expect_v2 _ = err (snapshot_error "updater v1 结果不支持 v2 写入")

-- `_read_v2`
unfoldable pub read_v2 : Unicode → String → Directory → Result UpdaterResultV2
unfolding read
read_v2 u operation_id d = read u operation_id d >>= λ entry. expect_v2 entry

-- The record that `takeover_v2` builds.
unfoldable pub taken_over : UpdaterResultV2 → String → ℕ → UpdaterResultV2
taken_over current coordinator now = record current {
  sequence = current.sequence + 1;
  recovery_generation = current.recovery_generation + 1;
  coordinator_container_id = coordinator;
  updated_at = now_utc now;
}

-- `takeover_v2`
unfoldable pub takeover_v2 :
    Unicode → String → String → ℕ → Directory → Result (UpdaterResultV2 × Directory)
unfolding taken_over
takeover_v2 u operation_id coordinator now d = do
  current ← read_v2 u operation_id d
  refuse (is_terminal current.status) (snapshot_error "updater 终态结果不可修改")
  refuse (leb max_recovery_generation current.recovery_generation)
      (snapshot_error "updater 恢复代次已达上限")
  validated u (taken_over current coordinator now) "updater v2 接管身份无效" d

pub record CheckpointArgs : Type 0 where
  pub status : UpdaterStatus
  pub checkpoint : Checkpoint
  pub candidate_token_hash : Option String
  pub candidate_container_id : Option String
  pub rollback_started : Option Bool
  pub error_code : Option String
  pub public_error_message : Option String

-- `a is not None and b is not None and b != a`
abbrev pub differs : Option String → Option String → Bool
differs (some a) (some b) = not (text_eq b a)
differs _ _ = false

-- `a if a is not None else b`
abbrev pub or_else : Option String → Option String → Option String
or_else (some a) b = some a
or_else none b = b

-- `_validate_checkpoint_progress`
unfoldable pub validate_checkpoint_progress :
    UpdaterResultV2 → UpdaterStatus → Checkpoint → Bool → Result (Unit {0})
validate_checkpoint_progress current status checkpoint rollback_started =
    if not (same_bool rollback_started (is_rollback checkpoint))
    then err (snapshot_error "updater v2 回滚检查点无效")
    else if not (is_rollback current.checkpoint) && is_rollback checkpoint
    then refuse
        (not (is_status status rolling_back) || not (index checkpoint == index rollback_begun))
        (snapshot_error "updater v2 必须从回滚起点进入回滚")
    else if not (same_bool (is_rollback current.checkpoint) (is_rollback checkpoint))
    then err (snapshot_error "updater v2 检查点方向不可逆")
    else if index checkpoint == index current.checkpoint
    then refuse (is_status status current.status) (snapshot_error "updater v2 检查点没有推进")
    else refuse (not (index checkpoint == index current.checkpoint + 1))
        (snapshot_error "updater v2 检查点不可倒退或跳步")

-- The record that `checkpoint_v2` builds.
unfoldable pub advanced : UpdaterResultV2 → CheckpointArgs → ℕ → UpdaterResultV2
advanced current a now = record current {
  sequence = current.sequence + 1;
  status = a.status;
  checkpoint = a.checkpoint;
  candidate_token_hash = or_else a.candidate_token_hash current.candidate_token_hash;
  candidate_container_id = or_else a.candidate_container_id current.candidate_container_id;
  rollback_started = coalesce a.rollback_started current.rollback_started;
  updated_at = now_utc now;
  error_code = a.error_code;
  public_error_message = a.public_error_message;
}

-- The checks of `checkpoint_v2` on the record that was read.
unfoldable pub check_advance : Unicode → UpdaterResultV2 → CheckpointArgs → Result (Unit {0})
unfolding validate_checkpoint_progress
check_advance u current a = do
  refuse (is_terminal current.status) (snapshot_error "updater 终态结果不可修改")
  refuse (not (is_status a.status current.status) && not (can_transition current.status a.status))
      (bad_transition current.status a.status)
  refuse (differs current.candidate_token_hash a.candidate_token_hash)
      (snapshot_error "updater v2 候选令牌哈希不可修改")
  refuse (differs current.candidate_container_id a.candidate_container_id)
      (snapshot_error "updater v2 候选容器标识不可修改")
  validate_checkpoint_progress current a.status a.checkpoint
      (coalesce a.rollback_started current.rollback_started)
  validate_public_error u a.error_code a.public_error_message

-- `checkpoint_v2`
unfoldable pub checkpoint_v2 :
    Unicode → String → CheckpointArgs → ℕ → Directory → Result (UpdaterResultV2 × Directory)
unfolding check_advance advanced
checkpoint_v2 u operation_id a now d = do
  current ← read_v2 u operation_id d
  check_advance u current a
  validated u (advanced current a now) "updater v2 检查点无效" d
