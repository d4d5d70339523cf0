-- ===== src/Updater/Rollback.antt =====
-- `UpdaterRollbackV2.execute` (`services/updater_rollback_v2.py`): the way back to the old container,
-- from whatever checkpoint the journal has. The loop runs on fuel.
pub mod Rules
pub mod Effects
pub mod Framed
pub mod Total
pub mod Outcome
pub mod Runs
pub mod Reason
pub mod Failure
pub mod Settled
pub mod Promises
use Prim.Native.String.{◌++◌ as append}
use media_sync.Prelude.{
  ℕ, zero, suc, String, Bool, true, false, ◌&&◌, not, Option, none, some, text_eq, if◌then◌else◌,
  is_some,
}
use media_sync.Updates.Recovery.{
  UpdaterStatus, snapshotting, switching, verifying, commit_requested, rolling_back, success,
  failed, rolled_back, rollback_failed, matched, conflict, is_identity, DockerRecoveryObservation,
}
use media_sync.Updater.Errors.{UpdaterError, state_machine_error, Result, ok, err}
use media_sync.Updater.Handoff.{HandoffDocument}
use media_sync.Updater.Checkpoint.{
  Checkpoint, rollback_begun, candidate_stopped, candidate_removed, snapshot_restored,
  candidate_evidence_removed, old_name_restored, old_policy_restored, old_started, old_verified,
  rollback_published, is_status,
}
use media_sync.Updater.Journal.Model.{UpdaterResultV2}
use media_sync.Updater.Journal.{Entry, v1_entry, v2_entry, bad_entry, CheckpointArgs, or_else, read}
use media_sync.Updater.Candidate.{CandidatePreparation}
use media_sync.Updater.Identity.{token_hash}
use media_sync.Updater.Machine.{
  Collaborators, World, M, ◌>>=◌, ◌>>◌, return, lift, refuse_if, journal_ask, prepare_candidate,
  hook, read_handoff, event_text, write_checkpoint, observe_containers,
}
use media_sync.Updater.Forward.{plain}
use Rules.{
  failure_phase, failure_message, expect_rollback, can_begin, with_reason, is_unsafe_start,
  is_state_machine_error,
}
use Effects.{
  stop_candidate, remove_candidate, restore_snapshot, remove_candidate_evidence, restore_old_name,
  restore_old_policy, start_old, verify_old, publish,
}

module _ {D : Type 0} (env : Collaborators D) where
  -- `_checkpoint`
  unfoldable pub checkpoint : String → CheckpointArgs → M D UpdaterResultV2
  unfolding with_reason
  checkpoint k a = do
    hook env (event_text "before_checkpoint" a.status a.checkpoint)
    current ← journal_ask (read env.unicode k)
    r ← write_checkpoint env k (with_reason current a)
    hook env (event_text "after_checkpoint" a.status a.checkpoint)
    return r

  -- `_read_result`
  unfoldable pub read_result : String → M D UpdaterResultV2
  unfolding expect_rollback
  read_result k = do
    entry ← journal_ask (read env.unicode k)
    lift (expect_rollback env.coordinator_container_id entry)

  -- The arguments of the first checkpoint of a rollback.
  abbrev pub begin_args :
      UpdaterResultV2 → CandidatePreparation → DockerRecoveryObservation → CheckpointArgs
  begin_args r p o = record {
    status = rolling_back;
    checkpoint = rollback_begun;
    candidate_token_hash = some (token_hash env.hexdigest p.marker.candidate_token);
    candidate_container_id = or_else r.candidate_container_id o.candidate.container_id;
    rollback_started = some true;
    error_code = some "update_forward_incomplete";
    public_error_message = some (failure_message r.checkpoint);
  }

  -- The part of `_enter_or_resume` that starts a rollback.
  unfoldable pub begin :
      HandoffDocument → UpdaterResultV2 → CandidatePreparation → M D UpdaterResultV2
  unfolding checkpoint
  begin document r p = do
    refuse_if (not (can_begin r.status)) "当前状态不允许开始自动回滚"
    o ← observe_containers env document r p
    refuse_if (is_unsafe_start r o) "回滚起点容器身份无法安全确认"
    hook env "after_effect:rollback_started"
    checkpoint document.operation_id (begin_args r p o)

  -- `result.candidate_token_hash not in {None, expected_hash}`
  abbrev pub is_other_token : UpdaterResultV2 → CandidatePreparation → Bool
  is_other_token r p = elim r.candidate_token_hash [
    | none ↦ false
    | some h ↦ not (text_eq h (token_hash env.hexdigest p.marker.candidate_token))
  ]

  -- `_enter_or_resume`
  unfoldable pub enter_or_resume :
      HandoffDocument → UpdaterResultV2 → M D (UpdaterResultV2 × CandidatePreparation)
  unfolding begin
  enter_or_resume document r = do
    if is_status r.status rolling_back then return tt else hook env "before:rollback_started"
    p ← prepare_candidate env document
    refuse_if (is_other_token r p) "回滚 pending 与结果身份不匹配"
    entered ← if is_status r.status rolling_back then return r else begin document r p
    return (entered, p)

  -- A round: its effect and the checkpoint that records it.
  unfoldable pub round_at :
      HandoffDocument → UpdaterResultV2 → CandidatePreparation → Checkpoint → M D UpdaterResultV2
  unfolding checkpoint
  round_at document r p rollback_begun =
      stop_candidate env document r p
      >> checkpoint document.operation_id (plain rolling_back candidate_stopped)
  round_at document r p candidate_stopped =
      remove_candidate env document r p
      >> checkpoint document.operation_id (plain rolling_back candidate_removed)
  round_at document r p candidate_removed =
      restore_snapshot env document.operation_id
      >> checkpoint document.operation_id (plain rolling_back snapshot_restored)
  round_at document r p snapshot_restored =
      remove_candidate_evidence env document.operation_id
      >> checkpoint document.operation_id (plain rolling_back candidate_evidence_removed)
  round_at document r p candidate_evidence_removed =
      restore_old_name env document r
      >> checkpoint document.operation_id (plain rolling_back old_name_restored)
  round_at document r p old_name_restored =
      restore_old_policy env document r
      >> checkpoint document.operation_id (plain rolling_back old_policy_restored)
  round_at document r p old_policy_restored =
      start_old env document r >> checkpoint document.operation_id (plain rolling_back old_started)
  round_at document r p old_started =
      verify_old env document >> checkpoint document.operation_id (plain rolling_back old_verified)
  round_at document r p old_verified =
      publish env >> checkpoint document.operation_id (plain rolling_back rollback_published)
  round_at document r p rollback_published =
      checkpoint document.operation_id (plain rolled_back rollback_published)
  round_at document r p _ = lift (err (state_machine_error "updater v2 回滚检查点无法执行"))

  -- `while result.status != "rolled_back"`; none when the fuel is used up.
  unfoldable pub rollback_loop :
      ℕ → HandoffDocument → CandidatePreparation → UpdaterResultV2 → M D (Option UpdaterResultV2)
  unfolding round_at
  rollback_loop zero document p r = return none
  rollback_loop (suc n) document p r = elim (is_status r.status rolled_back) [
    | true ↦ return (some r)
    | false ↦ round_at document r p r.checkpoint >>= λ next. rollback_loop n document p next
  ]

  -- The body of the `try`. More rounds are given than there are checkpoints.
  unfoldable pub attempt : HandoffDocument → UpdaterResultV2 → M D (Option UpdaterResultV2)
  unfolding enter_or_resume rollback_loop
  attempt document r = do
    (entered, p) ← enter_or_resume document r
    rollback_loop 11 document p entered

  -- The body of the `try` of `_record_rollback_failed`.
  unfoldable pub mark_failed : String → Entry → M D (Unit {0})
  mark_failed k (v2_entry r) =
      if is_status r.status rolling_back
      then write_checkpoint env k (record (plain rollback_failed r.checkpoint) {
        error_code = some "automatic_rollback_failed";
        public_error_message = some "自动回滚未能安全完成，需要人工恢复";
      })
        >>= (λ written. return tt)
      else return tt
  mark_failed k _ = return tt

  -- `_record_rollback_failed`: no exception leaves it.
  unfoldable pub record_rollback_failed : String → World D → World D
  unfolding mark_failed
  record_rollback_failed k w =
      ((journal_ask (read env.unicode k) >>= λ entry. mark_failed k entry) w).1

  -- The `except` clauses.
  unfoldable pub handle :
      String → Result (Option UpdaterResultV2) × World D → Result (Unit {0}) × World D
  unfolding record_rollback_failed
  handle k (ok (some r), w) = (ok tt, w)
  handle k (ok none, w) = (err (state_machine_error "no fuel is left"), w)
  handle k (err e, w) =
      if is_state_machine_error e
      then (err e, record_rollback_failed k w)
      else (err (state_machine_error "updater v2 自动回滚暂时失败，可从当前检查点重试"), w)

  -- What follows the reading of the result.
  unfoldable pub recover : HandoffDocument → UpdaterResultV2 → M D (Unit {0})
  unfolding attempt handle
  recover document r w =
      if is_status r.status rolled_back
      then (ok tt, w)
      else handle document.operation_id (attempt document r w)

  -- `execute`
  unfoldable pub execute : String → M D (Unit {0})
  unfolding read_result recover
  execute operation_id = do
    document ← read_handoff env operation_id
    r ← read_result operation_id
    recover document r
