-- ===== src/Updater/Examples/Records.antt =====
-- Theorems on the journal, at concrete results.
use media_sync.Prelude.{◌≤◌, String, ◌≡◌, refl, Bool, true, false, none, some, if◌then◌else◌}
use media_sync.Updates.Recovery.{UpdaterStatus, snapshotting, success}
use media_sync.Updater.Handoff.{
  is_official_repository, has_official_repository, valid_data_mounts, valid_devices,
  ends_with_digest, matches_patterns, validate_handoff_document,
}
use media_sync.Updater.Text.{
  only_marks, is_alnum_text, is_full_container_id, is_uuid_from, is_operation_id, same_codes,
  rpartition, is_revision, is_container_name, after_prefix, is_digest, every, is_container_id,
  is_end, after_digits, after_number, after_part, is_version, ascii,
}
use media_sync.Updater.Errors.{ok}
use media_sync.Updater.Checkpoint.{
  can_transition, status_code, is_status, is_terminal, index, allows_rollback, allows_forward,
  is_rollback, Checkpoint, commit_checkpoint, initialized, old_restart_fenced,
}
use media_sync.Updater.Journal.Model.{
  validate_public_error, names_candidate, same_bool, is_public_message, is_error_code,
  UpdaterResultV2, is_valid, has_valid_fields, has_valid_checkpoint,
}
use media_sync.Updater.Journal.{
  validate_checkpoint_progress, check_advance, validate_operation_id, read_entry, read, read_v2,
  v1_entry, v2_entry, Directory, write, start, start_v2, initial_v2, initial_v1, advanced,
  checkpoint_v2,
}
use media_sync.Updater.Journal.System.{
  Calls, done, next, starts, starts_v2, checkpoints, empty_directory,
}
use media_sync.Updater.Journal.Sound.{Sound, Calls-IsSound}
use media_sync.Updater.Journal.Later.{Later, Calls-Later, Calls-terminal}
use media_sync.Updater.Forward.{plain}
use media_sync.Updater.Examples.Sandbox.{document, operation, source_id, candidate_id, updater_id}

-- A result of the operation that names a token and a candidate.
abbrev pub result_at : UpdaterStatus → Checkpoint → Bool → UpdaterResultV2
result_at status checkpoint back = record {
  operation_id = operation;
  sequence = 9;
  status = status;
  checkpoint = checkpoint;
  recovery_generation = 0;
  coordinator_container_id = updater_id;
  source_container_id = source_id;
  source_image_id = document.source_image_id;
  source_container_name = "mediasync";
  target_image = document.target_image;
  target_revision = document.target_revision;
  candidate_token_hash =
      some "sha256:eeeeeeeeeeeeeeeeeeeeeeeeeeeeeeeeeeeeeeeeeeeeeeeeeeeeeeeeeeeeeeee";
  candidate_container_id = some candidate_id;
  rollback_started = back;
  updated_at = record { moment = 900; aware = true };
  error_code = if back then some "update_forward_incomplete" else none;
  public_error_message = none;
}

abbrev pub directory_with : UpdaterResultV2 → Directory
directory_with r = write operation (v2_entry r) empty_directory

abbrev first : UpdaterResultV2
first = record (result_at snapshotting initialized false) {
  sequence = 1;
  candidate_token_hash = none;
  candidate_container_id = none;
  updated_at = record { moment = 1000; aware = true };
}

abbrev second : UpdaterResultV2
second = record first { sequence = 2; checkpoint = old_restart_fenced }

document_valid : validate_handoff_document ascii document ≡ ok tt
unfolding validate_handoff_document matches_patterns is_version after_part after_number after_digits
    is_end ends_with_digest valid_devices valid_data_mounts is_container_id every is_digest
    after_prefix is_container_name is_revision rpartition has_official_repository
    is_official_repository same_codes
document_valid = refl

first_valid : is_valid ascii first ≡ true
unfolding is_valid has_valid_fields is_operation_id is_uuid_from is_full_container_id
    is_container_id every is_digest after_prefix is_container_name is_revision rpartition
    has_official_repository is_official_repository same_codes is_error_code is_alnum_text only_marks
    is_public_message has_valid_checkpoint same_bool is_rollback allows_forward allows_rollback
    index names_candidate
first_valid = refl

second_valid : is_valid ascii second ≡ true
unfolding is_valid has_valid_fields is_operation_id is_uuid_from is_full_container_id
    is_container_id every is_digest after_prefix is_container_name is_revision rpartition
    has_official_repository is_official_repository same_codes is_error_code is_alnum_text only_marks
    is_public_message has_valid_checkpoint same_bool is_rollback allows_forward allows_rollback
    index names_candidate
second_valid = refl

finished_valid : is_valid ascii (result_at success commit_checkpoint false) ≡ true
unfolding is_valid has_valid_fields is_operation_id is_uuid_from is_full_container_id
    is_container_id every is_digest after_prefix is_container_name is_revision rpartition
    has_official_repository is_official_repository same_codes is_error_code is_alnum_text only_marks
    is_public_message has_valid_checkpoint same_bool is_rollback allows_forward allows_rollback
    index names_candidate
finished_valid = refl

first_written :
    start_v2 ascii document updater_id 1000 empty_directory ≡ ok (first, directory_with first)
unfolding start_v2 initial_v2 validate_handoff_document matches_patterns is_version after_part
    after_number after_digits is_end ends_with_digest valid_devices valid_data_mounts is_valid
    has_valid_fields is_operation_id is_uuid_from is_full_container_id is_container_id every
    is_digest after_prefix is_container_name is_revision rpartition has_official_repository
    is_official_repository same_codes is_error_code is_alnum_text only_marks is_public_message
    has_valid_checkpoint same_bool is_rollback allows_forward allows_rollback index names_candidate
first_written = refl

second_written :
    checkpoint_v2 ascii operation
      (plain snapshotting old_restart_fenced)
      1000
      (directory_with first)
    ≡ ok (second, write operation (v2_entry second) (directory_with first))
unfolding checkpoint_v2 read_v2 read read_entry validate_operation_id check_advance advanced
    validate_checkpoint_progress validate_public_error is_terminal is_status status_code
    can_transition is_valid has_valid_fields is_operation_id is_uuid_from is_full_container_id
    is_container_id every is_digest after_prefix is_container_name is_revision rpartition
    has_official_repository is_official_repository same_codes is_error_code is_alnum_text only_marks
    is_public_message has_valid_checkpoint same_bool is_rollback allows_forward allows_rollback
    index names_candidate
second_written = refl

abbrev twice : Directory
twice = write operation (v2_entry second) (directory_with first)

two-Calls : Calls ascii empty_directory twice
two-Calls =
    next (next done (starts_v2 document updater_id 1000 first_written))
      (checkpoints operation (plain snapshotting old_restart_fenced) 1000 second_written)

Calls-IsSound_example : Sound ascii operation second × (second.sequence ≤ 24)
Calls-IsSound_example = Calls-IsSound ascii twice operation second two-Calls refl

Calls-Later_example : (r : UpdaterResultV2) × (twice operation ≡ some (v2_entry r)) × Later first r
Calls-Later_example =
    Calls-Later ascii (directory_with first) twice operation first
      (next done
        (checkpoints operation (plain snapshotting old_restart_fenced) 1000 second_written))
      refl

abbrev finished : UpdaterResultV2
finished = result_at success commit_checkpoint false

abbrev other : String
other = "3f2504e0-4f89-41d3-9a0c-0305e82c3302"

abbrev with_other : Directory
with_other = write other (v1_entry (initial_v1 other 1000)) (directory_with finished)

other_written : start other 1000 (directory_with finished) ≡ ok (initial_v1 other 1000, with_other)
unfolding start initial_v1 validate_operation_id is_operation_id is_uuid_from
other_written = refl

Calls-terminal_example : with_other operation ≡ some (v2_entry finished)
unfolding is_terminal
Calls-terminal_example =
    Calls-terminal ascii (directory_with finished) with_other operation (v2_entry finished)
      (next done (starts other 1000 other_written)) refl refl
