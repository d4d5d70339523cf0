-- ===== src/Updater/Examples/Executors.antt =====
-- Theorems on the executors, on the engine of Sandbox.
use media_sync.Prelude.{
  String, arith, ◌≡◌, refl, ap, true, false, Option, none, some, ◌⊎◌, inl, is_some,
}
use media_sync.Updates.Recovery.{snapshotting, success, commit_requested, rolling_back, rolled_back}
use media_sync.Updates.Gate.{PendingUpdateMarker}
use media_sync.Updater.Identity.{is_expected_name, source_identity_matches}
use media_sync.Updater.Forward.Effects.{remove_source, cleanup_old, require_candidate_id}
use media_sync.Updater.Text.{
  only_marks, is_alnum_text, same_codes, rpartition, is_revision, is_container_name, after_prefix,
  is_digest, every, is_container_id, is_full_container_id, is_uuid_from, is_operation_id, is_end,
  after_digits, after_number, after_part, is_version,
}
use media_sync.Updater.Handoff.{
  is_official_repository, has_official_repository, valid_data_mounts, valid_devices,
  ends_with_digest, matches_patterns, validate_handoff_document,
}
use media_sync.Updater.Errors.{UpdaterError, ok, err}
use media_sync.Updater.Checkpoint.{
  can_transition, is_terminal, index, allows_rollback, allows_forward, status_code, is_status,
  is_rollback, initialized, commit_checkpoint, rollback_begun, rollback_published,
}
use media_sync.Updater.Docker.{
  mount_agrees, single_agrees, mount_matches, before_hyphen, previous_name, container_name,
  Container,
}
use media_sync.Updater.Journal.Model.{
  validate_public_error, names_candidate, same_bool, has_valid_checkpoint, is_public_message,
  is_error_code, has_valid_fields, UpdaterResultV2, is_valid,
}
use media_sync.Updater.Journal.{
  validate_checkpoint_progress, advanced, check_advance, read_v2, checkpoint_v2, read_entry, read,
  validate_operation_id,
}
use media_sync.Updater.Candidate.{CandidatePreparation, candidate_config}
use media_sync.Updater.Machine.{
  write_checkpoint, checkpoint_text, status_text, event_text, read_handoff, World,
}
use media_sync.Updater.Machine.Keeps.{IsFrame}
use media_sync.Updater.Machine.Tracks.{Tracks}
use media_sync.Updater.Forward.{
  finish, is_off_path, validate_resumable, expect_forward, load_result, load_or_start, run_loop,
  forward_loop, forward_rounds, execute,
}
use media_sync.Updater.Forward.Total.{Ends, forward_loop-Ends}
use media_sync.Updater.Forward.Promises.{
  Guards, Journaled, execute-Journaled, execute_success, execute-Guards,
}
use media_sync.Updater.Rollback.{
  recover, read_result, checkpoint, round_at, rollback_loop, execute as roll_back,
}
use media_sync.Updater.Rollback.Rules.{expect_rollback, with_reason}
use media_sync.Updater.Rollback.Total.{RollbackEnds, rollback_loop-Ends}
use media_sync.Updater.Rollback.Runs.{rollback_execute-Journaled}
use media_sync.Updater.Rollback.Promises.{rollback_execute_done, rollback_execute_committed}
use media_sync.Updater.Rollback.Reason.{Reason, rollback_loop-Reason}
use media_sync.Updater.Examples.Records.{result_at, directory_with}
use media_sync.Updater.Examples.Sandbox.{
  Docker, source_container, env, failing_at, start, document, operation, candidate_id, change,
}

abbrev pub world_at : UpdaterResultV2 → World Docker
world_at r = record start { journal = directory_with r }

abbrev begun : UpdaterResultV2
begun = record (result_at snapshotting initialized false) {
  candidate_token_hash = none;
  candidate_container_id = none;
}

abbrev finished : UpdaterResultV2
finished = result_at success commit_checkpoint false

abbrev committing : UpdaterResultV2
committing = result_at commit_requested commit_checkpoint false

abbrev restoring : UpdaterResultV2
restoring = result_at rolling_back rollback_begun true

abbrev published : UpdaterResultV2
published = result_at rolling_back rollback_published true

abbrev restored_result : UpdaterResultV2
restored_result = result_at rolled_back rollback_published true

abbrev marker : PendingUpdateMarker
marker = record {
  operation_id = operation;
  target_version = document.target_version;
  target_digest = document.target_digest;
  target_revision = document.target_revision;
  candidate_token = "0123456789abcdef0123456789abcdef";
}

preparation : CandidatePreparation
preparation = record { marker = marker; create_config = candidate_config document marker }

-- The world after a success: the old container is renamed and stopped.
abbrev after_success : World Docker
after_success = record (world_at finished) {
  outside = record {
    source = some (record source_container {
      name = some "/mediasync-previous-3f2504e0";
      state = some false;
    });
    candidate = none;
    has_snapshot = true;
  };
}

forward_loop-Ends_example :
    Ends operation (forward_loop env forward_rounds document begun (world_at begun))
unfolding is_rollback
forward_loop-Ends_example = forward_loop-Ends env document begun (world_at begun) refl refl

-- An injected fault does not change what the theorem says.
execute-Journaled_example :
    Journaled true env.unicode start
      (execute (failing_at "after_effect:snapshot_verified") operation start).1
execute-Journaled_example =
    execute-Journaled (failing_at "after_effect:snapshot_verified") operation start

-- A pair from its first component.
pub completed : {A B : Type 0} (p : A × B) {a : A} → p.0 ≡ a → p ≡ (a, p.1)
completed p h = ap (λ x. (x, p.1)) h

finished_run : (execute env operation after_success).0 ≡ ok candidate_id
unfolding execute run_loop read_handoff validate_operation_id read read_entry
    validate_handoff_document matches_patterns is_version after_part after_number after_digits
    is_end ends_with_digest valid_devices valid_data_mounts load_or_start load_result expect_forward
    validate_resumable is_off_path forward_loop is_status status_code finish require_candidate_id
    cleanup_old remove_source source_identity_matches is_expected_name container_name previous_name
    before_hyphen mount_matches single_agrees mount_agrees is_valid has_valid_fields is_operation_id
    is_uuid_from is_full_container_id is_container_id every is_digest after_prefix is_container_name
    is_revision rpartition has_official_repository is_official_repository same_codes is_error_code
    is_alnum_text only_marks is_public_message has_valid_checkpoint same_bool is_rollback
    allows_forward allows_rollback index names_candidate
finished_run = refl

execute_success_example :
    (r : UpdaterResultV2) × Tracks operation (execute env operation after_success).1 r
    × (r.status ≡ success)
    × (r.candidate_container_id ≡ some candidate_id)
execute_success_example =
    execute_success env operation candidate_id after_success (execute env operation after_success).1
      (completed (execute env operation after_success) finished_run)

abbrev HasSource : Docker → Type 0
HasSource d = is_some d.source ≡ true

change_keeps :
    (id : String) (f : Container → Container) (c : Option Container)
    → is_some c ≡ true
    → is_some (change id f c) ≡ true
change_keeps id f none h = cc
change_keeps id f (some c) h = ground arith

HasSource-IsFrame : IsFrame env (Guards env HasSource)
HasSource-IsFrame = record {
  order = record { stay = λ w h. h; chain = λ v w x p q h. q (p h) };
  policy = λ id p w h. change_keeps id _ w.outside.source h;
  stop = λ id n w h. change_keeps id _ w.outside.source h;
  wait = λ id w h. h;
  rename = λ id name w h. change_keeps id _ w.outside.source h;
  create = λ name c w h. h;
  start = λ id w h. change_keeps id _ w.outside.source h;
  snapshot = λ k w h. h;
  check = λ k w h. h;
  restore = λ k w h. h;
  verify = λ d p id w h. h;
  verify_old = λ d id w h. h;
  commit = λ k w h. h;
  unlink = λ k w h. h;
  prepare = λ d w h. h;
}

execute-Guards_example :
    HasSource (execute env operation start).1.outside
    ⊎ ((r : UpdaterResultV2) × Tracks operation (execute env operation start).1 r
        × (r.status ≡ success))
execute-Guards_example = execute-Guards env HasSource operation start HasSource-IsFrame refl

restoring_valid : is_valid env.unicode restoring ≡ true
unfolding is_valid has_valid_fields is_operation_id is_uuid_from is_full_container_id
    is_container_id every is_digest after_prefix is_container_name is_revision rpartition
    has_official_repository is_official_repository same_codes is_error_code is_alnum_text only_marks
    is_public_message has_valid_checkpoint same_bool is_rollback allows_forward allows_rollback
    index names_candidate
restoring_valid = refl

rollback_loop-Ends_example :
    RollbackEnds operation
      (rollback_loop env 11 document preparation restoring (world_at restoring))
unfolding is_rollback
rollback_loop-Ends_example =
    rollback_loop-Ends env document preparation restoring (world_at restoring) refl restoring_valid
      refl

rollback_execute-Journaled_example :
    Journaled false env.unicode
      (world_at restoring)
      (roll_back env operation (world_at restoring)).1
rollback_execute-Journaled_example = rollback_execute-Journaled env operation (world_at restoring)

restored_run : (roll_back env operation (world_at restored_result)).0 ≡ ok tt
unfolding roll_back read_result expect_rollback recover is_status status_code read_handoff
    validate_operation_id read read_entry validate_handoff_document matches_patterns is_version
    after_part after_number after_digits is_end ends_with_digest valid_devices valid_data_mounts
    is_valid has_valid_fields is_operation_id is_uuid_from is_full_container_id is_container_id
    every is_digest after_prefix is_container_name is_revision rpartition has_official_repository
    is_official_repository same_codes is_error_code is_alnum_text only_marks is_public_message
    has_valid_checkpoint same_bool is_rollback allows_forward allows_rollback index names_candidate
restored_run = refl

rollback_execute_done_example :
    (r : UpdaterResultV2) × Tracks operation
      (roll_back env operation (world_at restored_result)).1
      r
    × (r.status ≡ rolled_back)
rollback_execute_done_example =
    rollback_execute_done env operation (world_at restored_result)
      (roll_back env operation (world_at restored_result)).1
      (completed (roll_back env operation (world_at restored_result)) restored_run)

rollback_execute_committed_example :
    (e : UpdaterError) × (roll_back env operation (world_at committing)
      ≡ (err e, world_at committing))
rollback_execute_committed_example =
    rollback_execute_committed env operation (world_at committing) committing refl (inl refl)

last_round :
    (rollback_loop env 2 document preparation published (world_at published)).0
    ≡ ok (
        some (record restored_result {
          sequence = 10;
          updated_at = record { moment = 1000; aware = true };
        }))
unfolding rollback_loop is_status status_code round_at checkpoint event_text status_text
    checkpoint_text read read_entry with_reason write_checkpoint checkpoint_v2 read_v2
    validate_operation_id check_advance advanced validate_checkpoint_progress validate_public_error
    is_terminal can_transition is_valid has_valid_fields is_operation_id is_uuid_from
    is_full_container_id is_container_id every is_digest after_prefix is_container_name is_revision
    rpartition has_official_repository is_official_repository same_codes is_error_code is_alnum_text
    only_marks is_public_message has_valid_checkpoint same_bool is_rollback allows_forward
    allows_rollback index names_candidate
last_round = refl

rollback_loop-Reason_example :
    Reason operation
      (some "update_forward_incomplete")
      none
      (rollback_loop env 2 document preparation published (world_at published)).1
rollback_loop-Reason_example =
    rollback_loop-Reason env (some "update_forward_incomplete") none document preparation 2
      published (world_at published)
      (rollback_loop env 2 document preparation published (world_at published)).1
      (some (record restored_result {
        sequence = 10;
        updated_at = record { moment = 1000; aware = true };
      }))
      (published, refl, record { back = refl; error = refl; text = refl })
      (completed (rollback_loop env 2 document preparation published (world_at published))
        last_round)
