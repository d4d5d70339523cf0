-- ===== src/Updater/Checkpoint.antt =====
-- The checkpoints of an update and the statuses they go with: `FORWARD_CHECKPOINTS`,
-- `ROLLBACK_CHECKPOINTS`, `UPDATER_TERMINAL_STATUSES` and `UPDATER_TRANSITIONS` of
-- `services/update_snapshot_service.py`.
use media_sync.Prelude.{ℕ, ◌≡◌, refl, Bool, true, false, ◌&&◌, ◌||◌, ◌==◌, ltb, leb, arith}
use media_sync.Updates.Recovery.{
  UpdaterStatus, snapshotting, switching, verifying, commit_requested, rolling_back, success,
  failed, rolled_back, rollback_failed,
}

-- FORWARD_CHECKPOINTS and then ROLLBACK_CHECKPOINTS, in their order; `commit_checkpoint` is the
-- checkpoint "commit_requested", and `rollback_begun` is "rollback_started".
pub data Checkpoint : Type 0 where
  initialized old_restart_fenced old_stopped pending_ready snapshot_verified old_renamed
        candidate_created candidate_started candidate_verified commit_checkpoint :
      Checkpoint
  rollback_begun candidate_stopped candidate_removed snapshot_restored candidate_evidence_removed
        old_name_restored old_policy_restored old_started old_verified rollback_published :
      Checkpoint

-- The position of a checkpoint in its tuple.
unfoldable pub index : Checkpoint → ℕ
index initialized = 0
index old_restart_fenced = 1
index old_stopped = 2
index pending_ready = 3
index snapshot_verified = 4
index old_renamed = 5
index candidate_created = 6
index candidate_started = 7
index candidate_verified = 8
index commit_checkpoint = 9
index rollback_begun = 0
index candidate_stopped = 1
index candidate_removed = 2
index snapshot_restored = 3
index candidate_evidence_removed = 4
index old_name_restored = 5
index old_policy_restored = 6
index old_started = 7
index old_verified = 8
index rollback_published = 9

-- `checkpoint in ROLLBACK_CHECKPOINTS`
unfoldable pub is_rollback : Checkpoint → Bool
is_rollback rollback_begun = true
is_rollback candidate_stopped = true
is_rollback candidate_removed = true
is_rollback snapshot_restored = true
is_rollback candidate_evidence_removed = true
is_rollback old_name_restored = true
is_rollback old_policy_restored = true
is_rollback old_started = true
is_rollback old_verified = true
is_rollback rollback_published = true
is_rollback _ = false

unfoldable pub status_code : UpdaterStatus → ℕ
status_code snapshotting = 0
status_code switching = 1
status_code verifying = 2
status_code commit_requested = 3
status_code rolling_back = 4
status_code success = 5
status_code failed = 6
status_code rolled_back = 7
status_code rollback_failed = 8

unfoldable pub is_status : UpdaterStatus → UpdaterStatus → Bool
unfolding status_code
is_status a b = status_code a == status_code b

-- UPDATER_TERMINAL_STATUSES
unfoldable pub is_terminal : UpdaterStatus → Bool
is_terminal success = true
is_terminal failed = true
is_terminal rolled_back = true
is_terminal rollback_failed = true
is_terminal _ = false

-- `status in UPDATER_TRANSITIONS.get(current, set())`
unfoldable pub can_transition : UpdaterStatus → UpdaterStatus → Bool
can_transition snapshotting switching = true
can_transition snapshotting rolling_back = true
can_transition snapshotting failed = true
can_transition switching verifying = true
can_transition switching rolling_back = true
can_transition verifying commit_requested = true
can_transition verifying rolling_back = true
can_transition commit_requested success = true
can_transition rolling_back rolled_back = true
can_transition rolling_back rollback_failed = true
can_transition _ _ = false

-- The statuses that a checkpoint of the forward path may have, by its position.
unfoldable pub allows_forward : UpdaterStatus → ℕ → Bool
allows_forward snapshotting i = ltb i 5
allows_forward switching i = leb 5 i && ltb i 8
allows_forward verifying i = (i == 7) || (i == 8)
allows_forward commit_requested i = i == 9
allows_forward success i = i == 9
allows_forward failed i = true
allows_forward _ i = false

-- The same for the path back.
unfoldable pub allows_rollback : UpdaterStatus → ℕ → Bool
allows_rollback rolling_back i = true
allows_rollback rolled_back i = i == 9
allows_rollback rollback_failed i = true
allows_rollback _ i = false

pub is_status_refl : (a : UpdaterStatus) → is_status a a ≡ true
unfolding is_status
is_status_refl snapshotting = refl
is_status_refl switching = refl
is_status_refl verifying = refl
is_status_refl commit_requested = refl
is_status_refl rolling_back = refl
is_status_refl success = refl
is_status_refl failed = refl
is_status_refl rolled_back = refl
is_status_refl rollback_failed = refl

pub index-le : (c : Checkpoint) → leb (index c) 9 ≡ true
unfolding index
index-le c = ground arith
