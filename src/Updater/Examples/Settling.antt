-- ===== src/Updater/Examples/Settling.antt =====
-- A rollback that a fault ends before its last checkpoint, on the engine of Sandbox.
use media_sync.Prelude.{arith, ◌≡◌, refl, ◌⊎◌, true, some}
use media_sync.Updates.Recovery.{rolling_back}
use media_sync.Updater.Journal.Potential.{potential}
use media_sync.Updater.Rollback.Effects.{publish}
use media_sync.Updater.Candidate.{
  build_candidate_create_config, new_candidate_token, existing_marker, prepare,
}
use media_sync.Updater.Text.{
  only_marks, is_alnum_text, same_codes, rpartition, is_revision, is_container_name, after_prefix,
  is_digest, every, is_container_id, is_full_container_id, is_uuid_from, is_operation_id,
  is_candidate_token, is_end, after_digits, after_number, after_part, is_version,
}
use media_sync.Updater.Handoff.{
  is_official_repository, has_official_repository, valid_data_mounts, valid_devices,
  ends_with_digest, matches_patterns, validate_handoff_document,
}
use media_sync.Updater.Journal.{
  validate_checkpoint_progress, advanced, check_advance, read_v2, checkpoint_v2, read_entry, read,
  validate_operation_id,
}
use media_sync.Updater.Rollback.Rules.{with_reason, expect_rollback}
use media_sync.Updater.Errors.{err}
use media_sync.Updater.Checkpoint.{
  index, allows_rollback, allows_forward, is_rollback, can_transition, is_terminal, status_code,
  is_status, old_verified, rollback_published,
}
use media_sync.Updater.Journal.Model.{
  names_candidate, same_bool, has_valid_checkpoint, is_public_message, is_error_code,
  has_valid_fields, is_valid, validate_public_error, UpdaterResultV2,
}
use media_sync.Updater.Machine.{
  write_checkpoint, checkpoint_text, status_text, event_text, read_handoff, Collaborators,
}
use media_sync.Updater.Machine.Tracks.{Tracks}
use media_sync.Updater.Rollback.{
  checkpoint, round_at, rollback_loop, enter_or_resume, handle, attempt, recover, read_result,
  execute,
}
use media_sync.Updater.Rollback.Settled.{retry_error, rollback_execute_unsettled}
use media_sync.Updater.Journal.Sound.{Sound}
use media_sync.Updater.Examples.Records.{result_at}
use media_sync.Updater.Examples.Sandbox.{Docker, failing_at, operation}
use media_sync.Updater.Examples.Executors.{world_at, completed}

abbrev verified : UpdaterResultV2
verified = result_at rolling_back old_verified true

abbrev late_fault : Collaborators Docker
late_fault = failing_at "before_checkpoint:rolled_back:rollback_published"

-- The result that the journal then has.
abbrev left : UpdaterResultV2
left = record (result_at rolling_back rollback_published true) {
  sequence = 10;
  updated_at = record { moment = 1000; aware = true };
}

faulty_run : (execute late_fault operation (world_at verified)).0 ≡ err retry_error
unfolding execute read_result expect_rollback recover is_status status_code read_handoff
    validate_operation_id read read_entry validate_handoff_document matches_patterns is_version
    after_part after_number after_digits is_end ends_with_digest valid_devices valid_data_mounts
    attempt handle enter_or_resume prepare existing_marker new_candidate_token is_candidate_token
    build_candidate_create_config rollback_loop round_at checkpoint publish event_text status_text
    checkpoint_text with_reason write_checkpoint checkpoint_v2 read_v2 check_advance advanced
    validate_checkpoint_progress validate_public_error is_terminal can_transition is_valid
    has_valid_fields is_operation_id is_uuid_from is_full_container_id is_container_id every
    is_digest after_prefix is_container_name is_revision rpartition has_official_repository
    is_official_repository same_codes is_error_code is_alnum_text only_marks is_public_message
    has_valid_checkpoint same_bool is_rollback allows_forward allows_rollback index names_candidate
faulty_run = refl

faulty_run_journal : Tracks operation (execute late_fault operation (world_at verified)).1 left
unfolding execute read_result expect_rollback recover is_status status_code read_handoff
    validate_operation_id read read_entry validate_handoff_document matches_patterns is_version
    after_part after_number after_digits is_end ends_with_digest valid_devices valid_data_mounts
    attempt handle enter_or_resume prepare existing_marker new_candidate_token is_candidate_token
    build_candidate_create_config rollback_loop round_at checkpoint publish event_text status_text
    checkpoint_text with_reason write_checkpoint checkpoint_v2 read_v2 check_advance advanced
    validate_checkpoint_progress validate_public_error is_terminal can_transition is_valid
    has_valid_fields is_operation_id is_uuid_from is_full_container_id is_container_id every
    is_digest after_prefix is_container_name is_revision rpartition has_official_repository
    is_official_repository same_codes is_error_code is_alnum_text only_marks is_public_message
    has_valid_checkpoint same_bool is_rollback allows_forward allows_rollback index names_candidate
faulty_run_journal = refl

verified-Sound : Sound late_fault.unicode operation verified
unfolding is_valid has_valid_fields is_operation_id is_uuid_from is_full_container_id
    is_container_id every is_digest after_prefix is_container_name is_revision rpartition
    has_official_repository is_official_repository same_codes is_error_code is_alnum_text only_marks
    is_public_message has_valid_checkpoint same_bool is_rollback allows_forward allows_rollback
    index names_candidate potential
verified-Sound = record { valid = refl; named = refl; counted = omega arith }

code_allowed : is_error_code late_fault.unicode (some "automatic_rollback_failed") ≡ true
unfolding is_error_code is_alnum_text only_marks every
code_allowed = refl

rollback_execute_unsettled_example :
    ((execute late_fault operation (world_at verified)).1 ≡ world_at verified)
    ⊎ (retry_error ≡ retry_error)
rollback_execute_unsettled_example =
    rollback_execute_unsettled late_fault operation (world_at verified)
      (execute late_fault operation (world_at verified)).1 retry_error left verified-Sound
      code_allowed (completed (execute late_fault operation (world_at verified)) faulty_run)
      faulty_run_journal refl
