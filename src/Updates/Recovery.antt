-- ===== src/Updates/Recovery.antt =====
-- What the updater does after a crash: `decide_recovery` and `_decide_v1` of
-- `services/updater_recovery_decision_service.py`. Of a result only its schema version and its status
-- are read, so a result is those two.
pub mod Examples
pub mod Justified
use media_sync.Prelude.{
  ℕ, String, ◌≡◌, refl, Bool, true, false, ◌&&◌, ◌||◌, not, Option, none, some, if◌then◌else◌, ◌==◌,
  ◌⊎◌, inl, inr, arith, is_empty, Bool-cases,
}

-- The status of an `UpdaterResult` (`services/update_snapshot_service.py`).
pub data UpdaterStatus : Type 0 where
  snapshotting switching verifying commit_requested rolling_back success failed rolled_back
        rollback_failed :
      UpdaterStatus

pub data UpdaterResult : Type 0 where
  v1 : UpdaterStatus → UpdaterResult
  v2 : UpdaterStatus → UpdaterResult

pub data IdentityStatus : Type 0 where
  missing matched conflict : IdentityStatus

abbrev pub identity_code : IdentityStatus → ℕ
identity_code missing = 0
identity_code matched = 1
identity_code conflict = 2

abbrev pub is_identity : IdentityStatus → IdentityStatus → Bool
is_identity a b = identity_code a == identity_code b

pub record ContainerIdentityObservation : Type 0 where
  pub status : IdentityStatus
  pub container_id : Option String
  pub running : Option Bool
  pub reason_code : Option String

pub record DockerRecoveryObservation : Type 0 where
  pub source : ContainerIdentityObservation
  pub candidate : ContainerIdentityObservation
  pub coordinator : ContainerIdentityObservation

pub data RecoveryAction : Type 0 where
  start_new continue_forward begin_rollback continue_rollback reconcile_commit cleanup_success
        await_rollback_reconciliation manual_recovery :
      RecoveryAction

pub record RecoveryDecision : Type 0 where
  pub action : RecoveryAction
  pub automatic : Bool
  pub reason_code : String

-- `RecoveryDecision(action, True, reason)`
abbrev pub act : RecoveryAction → String → RecoveryDecision
act action reason = record { action = action; automatic = true; reason_code = reason }

-- `_manual`
abbrev pub manual : String → RecoveryDecision
manual reason = record { action = manual_recovery; automatic = false; reason_code = reason }

-- `reason_code or default`: none and the empty string are falsy.
abbrev pub reason_or : Option String → String → String
reason_or none default = default
reason_or (some r) default = if is_empty r then default else r

abbrev pub is_matched : ContainerIdentityObservation → Bool
is_matched x = is_identity x.status matched

-- `running` as a condition: None is falsy.
abbrev pub is_running : ContainerIdentityObservation → Bool
is_running x = elim x.running [ none ↦ false | some b ↦ b ]

-- `_decide_v1`
unfoldable pub decide_v1 : UpdaterStatus → DockerRecoveryObservation → RecoveryDecision
decide_v1 success o = act cleanup_success "v1_success_cleanup"
decide_v1 rolled_back o = act await_rollback_reconciliation "v1_rolled_back_waiting_for_appliance"
decide_v1 commit_requested o =
    if is_matched o.candidate
    then act reconcile_commit "v1_commit_compatibility"
    else manual "v1_state_requires_manual_recovery"
decide_v1 _ o = manual "v1_state_requires_manual_recovery"

-- The statuses that need the source container.
unfoldable pub decide_source : UpdaterStatus → DockerRecoveryObservation → RecoveryDecision
decide_source rolling_back o = act continue_rollback "rollback_checkpoint_recovery"
decide_source switching o = act begin_rollback "forward_switch_interrupted"
decide_source verifying o = act begin_rollback "forward_switch_interrupted"
decide_source snapshotting o =
    if is_running o.source
    then act continue_forward "source_still_running"
    else act begin_rollback "source_stopped_before_commit"
decide_source _ o = manual "unsupported_recovery_state"

-- The branches of `decide_recovery` on a v2 result.
unfoldable pub decide_v2 : UpdaterStatus → DockerRecoveryObservation → RecoveryDecision
unfolding decide_source
decide_v2 failed o = manual "terminal_failed"
decide_v2 rollback_failed o = manual "terminal_rollback_failed"
decide_v2 success o = act cleanup_success "success_cleanup"
decide_v2 rolled_back o = act await_rollback_reconciliation "rolled_back_waiting_for_appliance"
decide_v2 commit_requested o =
    if not (is_matched o.candidate)
    then manual "commit_candidate_unresolved"
    else act reconcile_commit "commit_requires_database_reconciliation"
decide_v2 status o =
    if not (is_matched o.source)
    then manual "source_container_unresolved"
    else decide_source status o

-- What `decide_recovery` does once no identity is in conflict.
abbrev pub decide_result : Option UpdaterResult → DockerRecoveryObservation → RecoveryDecision
decide_result none o =
    if is_matched o.source && is_running o.source
    then act start_new "new_operation_safe"
    else manual "source_not_ready_for_new_operation"
decide_result (some (v1 status)) o = decide_v1 status o
decide_result (some (v2 status)) o = decide_v2 status o

-- `decide_recovery`
unfoldable pub decide_recovery : Option UpdaterResult → DockerRecoveryObservation → RecoveryDecision
unfolding decide_v1 decide_v2
decide_recovery result o =
    if not (is_matched o.coordinator)
    then manual (reason_or o.coordinator.reason_code "coordinator_unresolved")
    else if is_identity o.source.status conflict
    then manual (reason_or o.source.reason_code "container_identity_conflict")
    else if is_identity o.candidate.status conflict
    then manual (reason_or o.candidate.reason_code "container_identity_conflict")
    else decide_result result o
