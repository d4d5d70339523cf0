-- ===== src/Updater/Journal/System.antt =====
-- The calls of the journal as steps between directories, and how the file of one operation may change.
use media_sync.Prelude.{ℕ, ◌+◌, String, ◌≡◌, true, false, Option, none, some}
use media_sync.Updates.Recovery.{UpdaterStatus, snapshotting}
use media_sync.Updater.Text.{Unicode}
use media_sync.Updater.Errors.{ok}
use media_sync.Updater.Handoff.{HandoffDocument}
use media_sync.Updater.Checkpoint.{initialized, is_terminal, can_transition}
use media_sync.Updater.Journal.Model.{UpdaterResultV1, UpdaterResultV2, is_valid}
use media_sync.Updater.Journal.{
  Entry, v1_entry, v2_entry, Directory, start, start_v2, transition, takeover_v2, CheckpointArgs,
  checkpoint_v2,
}
use media_sync.Updater.Journal.Advance.{SameOperation, Advances}

-- One call that succeeds.
pub data Call (u : Unicode) : Directory → Directory → Type 0 where
  starts :
      {d d' : Directory} {r : UpdaterResultV1} (k : String) (now : ℕ)
      → start k now d ≡ ok (r, d')
      → Call u d d'
  starts_v2 :
      {d d' : Directory} {r : UpdaterResultV2} (document : HandoffDocument) (coordinator : String)
      (now : ℕ)
      → start_v2 u document coordinator now d ≡ ok (r, d')
      → Call u d d'
  transitions :
      {d d' : Directory} {r : UpdaterResultV1} (k : String) (status : UpdaterStatus)
      (error_code message : Option String) (now : ℕ)
      → transition u k status error_code message now d ≡ ok (r, d')
      → Call u d d'
  takes_over :
      {d d' : Directory} {r : UpdaterResultV2} (k coordinator : String) (now : ℕ)
      → takeover_v2 u k coordinator now d ≡ ok (r, d')
      → Call u d d'
  checkpoints :
      {d d' : Directory} {r : UpdaterResultV2} (k : String) (a : CheckpointArgs) (now : ℕ)
      → checkpoint_v2 u k a now d ≡ ok (r, d')
      → Call u d d'

pub data Calls (u : Unicode) : Directory → Directory → Type 0 where
  done : {d : Directory} → Calls u d d
  next : {d e f : Directory} → Calls u d e → Call u e f → Calls u d f

abbrev pub empty_directory : Directory
empty_directory k = none

-- A coordinator that takes an operation over changes nothing else but the count of its generation.
pub record Takes (c r : UpdaterResultV2) : Type 0 where
  pub live : is_terminal c.status ≡ false
  pub next : r.sequence ≡ c.sequence + 1
  pub generation : r.recovery_generation ≡ c.recovery_generation + 1
  pub same : SameOperation c r
  pub status : r.status ≡ c.status
  pub checkpoint : r.checkpoint ≡ c.checkpoint
  pub token : r.candidate_token_hash ≡ c.candidate_token_hash
  pub candidate : r.candidate_container_id ≡ c.candidate_container_id

-- How the file of an operation `k` may change.
pub data Changes (u : Unicode) (k : String) : Option Entry → Option Entry → Type 0 where
  first_v1 :
      {r : UpdaterResultV1}
      → r.sequence ≡ 1
      → r.status ≡ snapshotting
      → Changes u k none (some (v1_entry r))
  first_v2 :
      {r : UpdaterResultV2}
      → is_valid u r ≡ true
      → r.operation_id ≡ k
      → r.sequence ≡ 1
      → r.recovery_generation ≡ 0
      → r.status ≡ snapshotting
      → r.checkpoint ≡ initialized
      → Changes u k none (some (v2_entry r))
  moved :
      {c r : UpdaterResultV1}
      → is_terminal c.status ≡ false
      → can_transition c.status r.status ≡ true
      → r.sequence ≡ c.sequence + 1
      → Changes u k (some (v1_entry c)) (some (v1_entry r))
  taken :
      {c r : UpdaterResultV2}
      → is_valid u r ≡ true
      → Takes c r
      → Changes u k (some (v2_entry c)) (some (v2_entry r))
  advanced_to :
      {c r : UpdaterResultV2}
      → is_valid u c ≡ true
      → is_valid u r ≡ true
      → Advances c r
      → Changes u k (some (v2_entry c)) (some (v2_entry r))
