-- ===== src/Updater/Forward.antt =====
-- `UpdaterForwardV2.execute` (`services/updater_forward_v2.py`): from whatever checkpoint the journal
-- has, effect after effect, each recorded by the next checkpoint. The loop runs on fuel.
pub mod Effects
pub mod Framed
pub mod Steps
pub mod Total
pub mod Runs
pub mod Outcome
pub mod Promises
use media_sync.Prelude.{
  ℕ, zero, suc, String, Bool, true, false, ◌||◌, not, Option, none, some, text_eq, if◌then◌else◌,
  is_some,
}
use media_sync.Updates.Recovery.{
  UpdaterStatus, snapshotting, switching, verifying, commit_requested, rolling_back, success,
  failed, rolled_back, rollback_failed,
}
use media_sync.Updater.Errors.{UpdaterError, state_machine_error, foreign_error, Result, ok, err}
use media_sync.Updater.Handoff.{HandoffDocument}
use media_sync.Updater.Checkpoint.{
  Checkpoint, initialized, old_restart_fenced, old_stopped, pending_ready, snapshot_verified,
  old_renamed, candidate_created, candidate_started, candidate_verified, commit_checkpoint,
  is_status,
}
use media_sync.Updater.Journal.Model.{UpdaterResultV2}
use media_sync.Updater.Journal.{
  Entry, v1_entry, v2_entry, bad_entry, CheckpointArgs, read, start_v2, checkpoint_v2,
}
use media_sync.Updater.Candidate.{CandidatePreparation}
use media_sync.Updater.Identity.{token_hash}
use media_sync.Updater.Machine.{
  Collaborators, World, M, ◌>>=◌, ◌>>◌, return, lift, refuse_if, call, journal_call, journal_ask,
  prepare_candidate, hook, write_checkpoint, write_start, read_handoff, event_text,
}
use Effects.{
  fence_old_restart, stop_old, ensure_snapshot, rename_old, ensure_candidate, start_candidate,
  require_candidate_id, require_candidate_identity, cleanup_old,
}

-- The arguments of a checkpoint that sets neither a token nor a candidate.
abbrev pub plain : UpdaterStatus → Checkpoint → CheckpointArgs
plain status checkpoint = record {
  status = status;
  checkpoint = checkpoint;
  candidate_token_hash = none;
  candidate_container_id = none;
  rollback_started = none;
  error_code = none;
  public_error_message = none;
}

-- `result.status in {...}` of `_validate_resumable`
unfoldable pub is_off_path : UpdaterStatus → Bool
is_off_path rolling_back = true
is_off_path rolled_back = true
is_off_path failed = true
is_off_path rollback_failed = true
is_off_path _ = false

unfoldable pub expect_forward : Entry → Result UpdaterResultV2
expect_forward (v2_entry r) = ok r
expect_forward _ = err (state_machine_error "schema v1 正常路径不支持自动恢复")

-- More rounds than there are checkpoints and changes of status on the forward path.
abbrev pub forward_rounds : ℕ
forward_rounds = 12

module _ {D : Type 0} (env : Collaborators D) where
  -- `_checkpoint`
  unfoldable pub checkpoint : String → CheckpointArgs → M D UpdaterResultV2
  checkpoint k a = do
    hook env (event_text "before_checkpoint" a.status a.checkpoint)
    r ← write_checkpoint env k a
    hook env (event_text "after_checkpoint" a.status a.checkpoint)
    return r

  -- The branch of `_load_or_start` without a file.
  unfoldable pub start_result : HandoffDocument → M D UpdaterResultV2
  start_result document = do
    hook env "before:initialized"
    r ← write_start env document
    hook env "after_checkpoint:initialized"
    return r

  unfoldable pub load_result : String → M D UpdaterResultV2
  unfolding expect_forward
  load_result k = do entry ← journal_ask (read env.unicode k); lift (expect_forward entry)

  -- `_load_or_start`
  unfoldable pub load_or_start : HandoffDocument → M D UpdaterResultV2
  unfolding start_result load_result
  load_or_start document = do
    exists ← journal_ask (λ d. ok (is_some (d document.operation_id)))
    if exists then load_result document.operation_id else start_result document

  -- `_validate_resumable`
  unfoldable pub validate_resumable : UpdaterResultV2 → M D (Unit {0})
  unfolding is_off_path
  validate_resumable r = do
    refuse_if (not (text_eq r.coordinator_container_id env.coordinator_container_id))
        "updater v2 需要先完成协调器接管"
    refuse_if (r.rollback_started || is_off_path r.status) "updater v2 当前状态不属于正常路径"

  -- The round of the loop at "old_stopped".
  unfoldable pub make_pending : HandoffDocument → M D UpdaterResultV2
  make_pending document = do
    hook env "before:pending_ready"
    preparation ← prepare_candidate env document
    hook env "after_effect:pending_ready"
    checkpoint document.operation_id (record (plain snapshotting pending_ready) {
      candidate_token_hash = some (token_hash env.hexdigest preparation.marker.candidate_token);
    })

  -- The round at "old_renamed".
  unfoldable pub make_candidate : HandoffDocument → UpdaterResultV2 → M D UpdaterResultV2
  make_candidate document r = do
    preparation ← prepare_candidate env document
    id ← ensure_candidate env document r preparation
    checkpoint document.operation_id
        (record (plain switching candidate_created) { candidate_container_id = some id })

  -- The round at "candidate_created".
  unfoldable pub run_candidate : HandoffDocument → UpdaterResultV2 → M D UpdaterResultV2
  run_candidate document r = do
    preparation ← prepare_candidate env document
    id ← require_candidate_identity env document r preparation
    start_candidate env id
    checkpoint document.operation_id (plain switching candidate_started)

  -- The round at "candidate_started" once the status is "verifying".
  unfoldable pub verify_candidate : HandoffDocument → UpdaterResultV2 → M D UpdaterResultV2
  verify_candidate document r = do
    preparation ← prepare_candidate env document
    id ← require_candidate_identity env document r preparation
    hook env "before:candidate_verified"
    call (env.verify_candidate document preparation id)
    hook env "after_effect:candidate_verified"
    checkpoint document.operation_id (plain verifying candidate_verified)

  -- The round at "commit_requested".
  unfoldable pub await_commit : String → M D UpdaterResultV2
  await_commit k = do
    hook env "before:commit_confirmed"
    call (env.wait_commit k)
    hook env "after_effect:commit_confirmed"
    checkpoint k (plain success commit_checkpoint)

  -- One round of the loop, by the checkpoint.
  unfoldable pub round_at : HandoffDocument → UpdaterResultV2 → Checkpoint → M D UpdaterResultV2
  unfolding checkpoint make_pending make_candidate run_candidate verify_candidate await_commit
  round_at document r initialized =
      fence_old_restart env document
      >> checkpoint document.operation_id (plain snapshotting old_restart_fenced)
  round_at document r old_restart_fenced =
      stop_old env document >> checkpoint document.operation_id (plain snapshotting old_stopped)
  round_at document r old_stopped = make_pending document
  round_at document r pending_ready =
      ensure_snapshot env document.operation_id
      >> checkpoint document.operation_id (plain snapshotting snapshot_verified)
  round_at document r snapshot_verified =
      rename_old env document >> checkpoint document.operation_id (plain switching old_renamed)
  round_at document r old_renamed = make_candidate document r
  round_at document r candidate_created = run_candidate document r
  round_at document r candidate_started =
      if is_status r.status switching
      then checkpoint document.operation_id (plain verifying candidate_started)
      else verify_candidate document r
  round_at document r candidate_verified =
      checkpoint document.operation_id (plain commit_requested commit_checkpoint)
  round_at document r commit_checkpoint = await_commit document.operation_id
  round_at document r _ = lift (err (state_machine_error "updater v2 正常路径检查点无法执行"))

  abbrev pub round : HandoffDocument → UpdaterResultV2 → M D UpdaterResultV2
  round document r = round_at document r r.checkpoint

  -- `while result.status != "success"`; none when the fuel is used up.
  unfoldable pub forward_loop : ℕ → HandoffDocument → UpdaterResultV2 → M D (Option UpdaterResultV2)
  unfolding round_at
  forward_loop zero document r = return none
  forward_loop (suc n) document r = elim (is_status r.status success) [
    | true ↦ return (some r)
    | false ↦ round document r >>= λ next. forward_loop n document next
  ]

  -- What follows the loop.
  unfoldable pub finish : HandoffDocument → Option UpdaterResultV2 → M D String
  unfolding require_candidate_id
  finish document none = lift (err (foreign_error "no fuel is left"))
  finish document (some r) = do
    id ← lift (require_candidate_id r)
    cleanup_old env document r
    return id

  -- `execute`, up to the end of its loop.
  unfoldable pub run_loop : String → M D (HandoffDocument × Option UpdaterResultV2)
  unfolding load_or_start validate_resumable forward_loop
  run_loop operation_id = do
    document ← read_handoff env operation_id
    r ← load_or_start document
    validate_resumable r
    last ← forward_loop forward_rounds document r
    return (document, last)

  -- `execute`
  unfoldable pub execute : String → M D String
  unfolding run_loop finish
  execute operation_id = do (document, last) ← run_loop operation_id; finish document last
