-- ===== src/Updater/Rollback/Rules.antt =====
-- What `UpdaterRollbackV2` (`services/updater_rollback_v2.py`) decides on a result, an observation or an
-- error.
use Prim.Native.String.{◌++◌ as append}
use media_sync.Prelude.{
  String, Bool, true, false, ◌&&◌, not, none, some, text_eq, if◌then◌else◌, is_some,
}
use media_sync.Updates.Recovery.{
  UpdaterStatus, snapshotting, switching, verifying, commit_requested, success, failed,
  rollback_failed, matched, conflict, is_identity, DockerRecoveryObservation,
}
use media_sync.Updater.Errors.{UpdaterError, state_machine_error, Result, ok, err}
use media_sync.Updater.Checkpoint.{Checkpoint}
use media_sync.Updater.Journal.Model.{UpdaterResultV2}
use media_sync.Updater.Journal.{Entry, v2_entry, CheckpointArgs}

-- FORWARD_FAILURE_PHASES; a `KeyError` for the checkpoints of the way back, which no caller has here.
unfoldable pub failure_phase : Checkpoint → String
failure_phase Checkpoint.initialized = "隔离旧容器重启策略"
failure_phase Checkpoint.old_restart_fenced = "停止旧容器"
failure_phase Checkpoint.old_stopped = "准备候选配置"
failure_phase Checkpoint.pending_ready = "创建数据快照"
failure_phase Checkpoint.snapshot_verified = "切换旧容器名称"
failure_phase Checkpoint.old_renamed = "创建新版本容器"
failure_phase Checkpoint.candidate_created = "启动新版本容器"
failure_phase Checkpoint.candidate_started = "验证新版本容器"
failure_phase Checkpoint.candidate_verified = "提交更新"
failure_phase Checkpoint.commit_checkpoint = "等待提交确认"
failure_phase _ = ""

unfoldable pub failure_message : Checkpoint → String
unfolding failure_phase
failure_message c = append "更新在“" (append (failure_phase c) "”阶段未能完成，已自动恢复到更新前版本")

-- The checks of `_read_result` on the entry that was read.
unfoldable pub expect_rollback : String → Entry → Result UpdaterResultV2
expect_rollback coordinator (v2_entry r) =
    if not (text_eq r.coordinator_container_id coordinator)
    then err (state_machine_error "updater v2 需要先完成协调器接管")
    else elim r.status [
      | commit_requested ↦ err (state_machine_error "提交阶段禁止自动回滚")
      | success ↦ err (state_machine_error "提交阶段禁止自动回滚")
      | failed ↦ err (state_machine_error "updater v2 当前状态不可再次回滚")
      | rollback_failed ↦ err (state_machine_error "updater v2 当前状态不可再次回滚")
      | _ ↦ ok r
    ]
expect_rollback coordinator _ = err (state_machine_error "schema v1 不支持自动回滚")

-- The statuses from which a rollback starts.
unfoldable pub can_begin : UpdaterStatus → Bool
can_begin snapshotting = true
can_begin switching = true
can_begin verifying = true
can_begin _ = false

-- The reason that the journal has is kept while neither a code nor a message is given.
unfoldable pub with_reason : Entry → CheckpointArgs → CheckpointArgs
with_reason (v2_entry r) a =
    if r.rollback_started && not (is_some a.error_code) && not (is_some a.public_error_message)
    then record a { error_code = r.error_code; public_error_message = r.public_error_message }
    else a
with_reason _ a = a

-- The containers at the start of a rollback: the old one is stopped, the coordinator is known, and
-- a candidate in conflict is one that the journal names.
unfoldable pub is_unsafe_start : UpdaterResultV2 → DockerRecoveryObservation → Bool
is_unsafe_start r o = not (
    is_identity o.source.status matched
    && elim o.source.running [ none ↦ false | some running ↦ not running ]
    && is_identity o.coordinator.status matched
    && not (is_identity o.candidate.status conflict && not (is_some r.candidate_container_id)))

abbrev pub is_state_machine_error : UpdaterError → Bool
is_state_machine_error (state_machine_error m) = true
is_state_machine_error _ = false
