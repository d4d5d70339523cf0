-- ===== src/Updater/Journal/Model.antt =====
-- The records of the updater's journal and their validation: `UpdaterResult`, `UpdaterResultV2` and
-- `validate_public_error` of `services/update_snapshot_service.py`.
use media_sync.Prelude.{
  ℕ, String, Bool, true, false, ◌&&◌, not, Option, none, some, leb, if◌then◌else◌, length, is_some,
}
use media_sync.Updates.Recovery.{UpdaterStatus}
use media_sync.Updater.Text.{
  Unicode, codes, rpartition, is_full_container_id, is_container_name, is_digest, is_revision,
  is_operation_id, is_alnum_text,
}
use media_sync.Updater.Errors.{snapshot_error, Result, ok, ◌>>◌, refuse}
use media_sync.Updater.Handoff.{has_official_repository}
use media_sync.Updater.Checkpoint.{Checkpoint, index, is_rollback, allows_forward, allows_rollback}

-- A `datetime`: its moment, and whether it carries a time zone.
pub record Datetime : Type 0 where
  pub moment : ℕ
  pub aware : Bool

-- `datetime.now(UTC)`
abbrev pub now_utc : ℕ → Datetime
now_utc now = record { moment = now; aware = true }

-- `UpdaterResult`, of schema version 1.
pub record UpdaterResultV1 : Type 0 where
  pub operation_id : String
  pub sequence : ℕ
  pub status : UpdaterStatus
  pub updated_at : Datetime
  pub error_code : Option String
  pub public_error_message : Option String

pub record UpdaterResultV2 : Type 0 where
  pub operation_id : String
  pub sequence : ℕ
  pub status : UpdaterStatus
  pub checkpoint : Checkpoint
  pub recovery_generation : ℕ
  pub coordinator_container_id : String
  pub source_container_id : String
  pub source_image_id : String
  pub source_container_name : String
  pub target_image : String
  pub target_revision : String
  pub candidate_token_hash : Option String
  pub candidate_container_id : Option String
  pub rollback_started : Bool
  pub updated_at : Datetime
  pub error_code : Option String
  pub public_error_message : Option String

abbrev pub max_recovery_generation : ℕ
max_recovery_generation = 3

unfoldable pub is_error_code : Unicode → Option String → Bool
is_error_code u none = true
is_error_code u (some text) = leb (length (codes text)) 100 && is_alnum_text u (codes text)

unfoldable pub is_public_message : Option String → Bool
is_public_message none = true
is_public_message (some text) = leb (length (codes text)) 1000

-- `validate_public_error`
unfoldable pub validate_public_error : Unicode → Option String → Option String → Result (Unit {0})
unfolding is_error_code is_public_message
validate_public_error u error_code message = do
  refuse (not (is_error_code u error_code)) (snapshot_error "updater 错误代码无效")
  refuse (not (is_public_message message)) (snapshot_error "updater 公开错误信息过长")
  ok tt

abbrev is_optional : (String → Bool) → Option String → Bool
is_optional test none = true
is_optional test (some text) = test text

abbrev is_digest_text : String → Bool
is_digest_text text = is_digest (codes text)

abbrev is_id_text : String → Bool
is_id_text text = is_full_container_id (codes text)

-- The target image is an official repository at a digest.
abbrev is_target_image : String → Bool
is_target_image text = elim (rpartition (codes text)) [
  | none ↦ false
  | some p ↦ is_digest p.1 && has_official_repository (codes text)
]

-- `UpdaterResultV2.validate_invariants`, up to `_validate_status_checkpoint`.
unfoldable pub has_valid_fields : Unicode → UpdaterResultV2 → Bool
has_valid_fields u r =
    is_operation_id (codes r.operation_id)
    && is_id_text r.coordinator_container_id
    && is_id_text r.source_container_id
    && is_optional is_id_text r.candidate_container_id
    && is_digest_text r.source_image_id
    && is_container_name (codes r.source_container_name)
    && is_revision (codes r.target_revision)
    && is_target_image r.target_image
    && is_optional is_digest_text r.candidate_token_hash
    && r.updated_at.aware
    && is_error_code u r.error_code
    && is_public_message r.public_error_message

unfoldable pub same_bool : Bool → Bool → Bool
same_bool true b = b
same_bool false b = not b

-- What a checkpoint of the forward path says about the candidate's token and container.
unfoldable pub names_candidate : UpdaterResultV2 → Bool
unfolding same_bool
names_candidate r =
    same_bool (leb (index Checkpoint.pending_ready) (index r.checkpoint))
      (is_some r.candidate_token_hash)
    && same_bool (leb (index Checkpoint.candidate_created) (index r.checkpoint))
        (is_some r.candidate_container_id)

-- `_validate_status_checkpoint`
unfoldable pub has_valid_checkpoint : UpdaterResultV2 → Bool
unfolding same_bool names_candidate
has_valid_checkpoint r =
    same_bool r.rollback_started (is_rollback r.checkpoint)
    && (if is_rollback r.checkpoint
        then allows_rollback r.status (index r.checkpoint) && is_some r.candidate_token_hash
        else allows_forward r.status (index r.checkpoint) && names_candidate r)

-- `UpdaterResultV2.model_validate`
unfoldable pub is_valid : Unicode → UpdaterResultV2 → Bool
is_valid u r =
    leb 1 r.sequence
    && leb r.recovery_generation max_recovery_generation
    && has_valid_fields u r
    && has_valid_checkpoint r
