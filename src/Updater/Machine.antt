-- ===== src/Updater/Machine.antt =====
-- What the two executors of the updater share (`services/updater_forward_v2.py`,
-- `updater_rollback_v2.py`): the world they act on, the collaborators they are given, and a monad in
-- which an error keeps what was done before it. An effect on the world is not undone by an exception.
pub mod Keeps
pub mod Tracks
pub mod Ensures
use Prim.Native.String.{◌++◌ as append}
use media_sync.Prelude.{ℕ, zero, suc, String, Bool, ◌&&◌, not, some, text_eq, leb, length}
use media_sync.Updates.Gate.{MarkerRead}
use media_sync.Updates.Recovery.{
  UpdaterStatus, snapshotting, switching, verifying, commit_requested, rolling_back, success,
  failed, rolled_back, rollback_failed, DockerRecoveryObservation,
}
use media_sync.Updater.Text.{Unicode, codes, every, is_lower_hex}
use media_sync.Updater.Errors.{snapshot_error, state_machine_error, Result, ok, err, refuse}
use media_sync.Updater.Handoff.{HandoffDocument, validate_handoff_document}
use media_sync.Updater.Docker.{previous_name, Act, Engine, Container}
use media_sync.Updater.Checkpoint.{Checkpoint}
use media_sync.Updater.Journal.Model.{UpdaterResultV2}
use media_sync.Updater.Journal.{
  CheckpointArgs, start_v2, checkpoint_v2, Directory, validate_operation_id,
}
use media_sync.Updater.Candidate.{CandidatePreparation, prepare}
use media_sync.Updater.Identity.Observe.{observe}

-- The snapshots of `UpdateSnapshotService`, as the executors call them: whether the directory of an
-- operation is there, and the three operations on it.
pub record SnapshotService (D : Type 0) : Type 0 where
  pub exists : String → D → Bool
  pub is_symlink : String → D → Bool
  pub create : String → Act D (Unit {0})
  pub verify : String → Act D (Unit {0})
  pub restore : String → Act D (Unit {0})

-- What an executor is built with. `D` is the state of everything outside the updater's own files.
pub record Collaborators (D : Type 0) : Type 0 where
  pub unicode : Unicode
  pub hexdigest : String → String
  pub engine : Engine D
  pub snapshots : SnapshotService D
  -- CandidateVerifier, PreviousContainerVerifier and CommitWaiter
  pub verify_candidate : HandoffDocument → CandidatePreparation → String → Act D (Unit {0})
  pub verify_previous : HandoffDocument → String → Act D (Unit {0})
  pub wait_commit : String → Act D (Unit {0})
  -- The directory of operations is a directory; the path of the candidate's evidence is no link.
  pub has_operations_directory : D → Bool
  pub is_evidence_symlink : String → D → Bool
  pub unlink_evidence : String → Act D (Unit {0})
  -- The content of `{operation_id}.handoff.json`, when it can be read.
  pub handoff_file : String → Result HandoffDocument
  pub fault_hook : String → Result (Unit {0})
  pub coordinator_container_id : String
  pub socket_path : String
  pub stop_timeout_seconds : ℕ
  -- What the factory of tokens draws, and `datetime.now(UTC)`.
  pub drawn_token : String
  pub now : D → ℕ

-- `text[:n]`
unfoldable pub take_text : ℕ → String → String
take_text zero s = ""
take_text (suc n) String.[] = ""
take_text (suc n) (String.◌∷◌ c s) = String.◌∷◌ c (take_text n s)

pub record World (D : Type 0) : Type 0 where
  pub journal : Directory
  pub pending : MarkerRead
  pub outside : D

abbrev pub M : Type 0 → Type 0 → Type 0
M D A = World D → Result A × World D

module _ {D : Type 0} where
  abbrev pub proceed : {A B : Type 0} → Result A × World D → (A → M D B) → Result B × World D
  proceed (ok a, w) f = f a w
  proceed (err e, w) f = (err e, w)

  infixl 5 ◌>>=◌ ◌>>◌
  abbrev pub ◌>>=◌ : {A B : Type 0} → M D A → (A → M D B) → M D B
  ◌>>=◌ m f w = proceed (m w) f

  abbrev pub ◌>>◌ : {B : Type 0} → M D (Unit {0}) → M D B → M D B
  ◌>>◌ m k w = proceed (m w) (λ _. k)

  abbrev pub return : {A : Type 0} → A → M D A
  return a w = (ok a, w)

  abbrev pub lift : {A : Type 0} → Result A → M D A
  lift r w = (r, w)

  -- `if test: raise UpdaterStateMachineError(message)`
  abbrev pub refuse_if : Bool → String → M D (Unit {0})
  refuse_if test message = lift (refuse test (state_machine_error message))

  -- A question to the outside, and a call that changes it.
  abbrev pub ask : {A : Type 0} → (D → Result A) → M D A
  ask q w = (q w.outside, w)

  abbrev pub call : {A : Type 0} → Act D A → M D A
  call act w = let (r, d) = act w.outside in (r, record w { outside = d })

  abbrev pub commit : {A : Type 0} → World D → Result (A × Directory) → Result A × World D
  commit w (ok (a, d)) = (ok a, record w { journal = d })
  commit w (err e) = (err e, w)

  -- A write of the journal.
  abbrev pub journal_call : {A : Type 0} → (Directory → Result (A × Directory)) → M D A
  journal_call f w = commit w (f w.journal)

  -- A read of the journal.
  abbrev pub journal_ask : {A : Type 0} → (Directory → Result A) → M D A
  journal_ask f w = (f w.journal, w)

  -- `candidate_service.prepare(document)`
  abbrev pub prepare_candidate : Collaborators D → HandoffDocument → M D CandidatePreparation
  prepare_candidate env document w =
      let (r, pending) = prepare document env.drawn_token w.pending in
      (r, record w { pending = pending })

  abbrev pub hook : Collaborators D → String → M D (Unit {0})
  hook env event = lift (env.fault_hook event)

  -- `UpdaterDockerIdentityService(...).observe(...)` as both executors call it.
  unfoldable pub observe_containers :
      Collaborators D
      → HandoffDocument
      → UpdaterResultV2
      → CandidatePreparation
      → M D DockerRecoveryObservation
  observe_containers env document r preparation = ask (
      observe env.unicode env.hexdigest env.engine env.socket_path document r
        (some preparation.marker) (take_text 12 env.coordinator_container_id))

  -- `journal.checkpoint_v2(...)` and `journal.start_v2(...)`
  unfoldable pub write_checkpoint : Collaborators D → String → CheckpointArgs → M D UpdaterResultV2
  write_checkpoint env k a w = journal_call (checkpoint_v2 env.unicode k a (env.now w.outside)) w

  unfoldable pub write_start : Collaborators D → HandoffDocument → M D UpdaterResultV2
  write_start env document w =
      journal_call (start_v2 env.unicode document env.coordinator_container_id (env.now w.outside))
        w

  abbrev pub inspect : Collaborators D → String → M D Container
  inspect env id = ask (env.engine.inspect_container id)

-- `read_handoff`
unfoldable pub read_handoff : {D : Type 0} → Collaborators D → String → M D HandoffDocument
read_handoff env operation_id = do
  lift (validate_operation_id operation_id)
  document ← lift (env.handoff_file operation_id)
  lift (
      refuse (not (text_eq document.operation_id operation_id))
        (snapshot_error "updater handoff 操作标识不匹配"))
  lift (validate_handoff_document env.unicode document)
  return document

-- `previous_container_name` of `services/updater_state_machine.py`
unfoldable pub previous_container_name : String → Result String
previous_container_name operation_id = elim (validate_operation_id operation_id) [
  | err e ↦ err e
  | ok x ↦ ok (previous_name operation_id)
]

-- The checks of `UpdaterForwardV2.__init__` and `UpdaterRollbackV2.__init__`.
unfoldable pub is_configured : {D : Type 0} → Collaborators D → Bool
unfolding every
is_configured env =
    (let id = codes env.coordinator_container_id in
      leb 64 (length id) && leb (length id) 64 && every is_lower_hex id)
    && leb 1 env.stop_timeout_seconds
    && leb env.stop_timeout_seconds 600

unfoldable pub status_text : UpdaterStatus → String
status_text snapshotting = "snapshotting"
status_text switching = "switching"
status_text verifying = "verifying"
status_text commit_requested = "commit_requested"
status_text rolling_back = "rolling_back"
status_text success = "success"
status_text failed = "failed"
status_text rolled_back = "rolled_back"
status_text rollback_failed = "rollback_failed"

unfoldable pub checkpoint_text : Checkpoint → String
checkpoint_text Checkpoint.initialized = "initialized"
checkpoint_text Checkpoint.old_restart_fenced = "old_restart_fenced"
checkpoint_text Checkpoint.old_stopped = "old_stopped"
checkpoint_text Checkpoint.pending_ready = "pending_ready"
checkpoint_text Checkpoint.snapshot_verified = "snapshot_verified"
checkpoint_text Checkpoint.old_renamed = "old_renamed"
checkpoint_text Checkpoint.candidate_created = "candidate_created"
checkpoint_text Checkpoint.candidate_started = "candidate_started"
checkpoint_text Checkpoint.candidate_verified = "candidate_verified"
checkpoint_text Checkpoint.commit_checkpoint = "commit_requested"
checkpoint_text Checkpoint.rollback_begun = "rollback_started"
checkpoint_text Checkpoint.candidate_stopped = "candidate_stopped"
checkpoint_text Checkpoint.candidate_removed = "candidate_removed"
checkpoint_text Checkpoint.snapshot_restored = "snapshot_restored"
checkpoint_text Checkpoint.candidate_evidence_removed = "candidate_evidence_removed"
checkpoint_text Checkpoint.old_name_restored = "old_name_restored"
checkpoint_text Checkpoint.old_policy_restored = "old_policy_restored"
checkpoint_text Checkpoint.old_started = "old_started"
checkpoint_text Checkpoint.old_verified = "old_verified"
checkpoint_text Checkpoint.rollback_published = "rollback_published"

-- f"{prefix}:{status}:{checkpoint}"
unfoldable pub event_text : String → UpdaterStatus → Checkpoint → String
unfolding status_text checkpoint_text
event_text prefix status checkpoint =
    append prefix
      (append ":" (append (status_text status) (append ":" (checkpoint_text checkpoint))))
