-- ===== src/Updater/Journal/Potential.antt =====
-- A measure that every checkpoint raises, and its bound: an update writes finitely many results.
use media_sync.Prelude.{ℕ, ◌+◌, ◌≤◌, ◌<◌, ◌≡◌, true, false, leb, if◌then◌else◌, is_some, arith, ◌⊎◌}
use media_sync.Updates.Recovery.{
  UpdaterStatus, verifying, commit_requested, rolling_back, success, failed, rolled_back,
  rollback_failed,
}
use media_sync.Updater.Text.{Unicode}
use media_sync.Updater.Checkpoint.{
  is_rollback, index, index-le, is_status, is_terminal, can_transition, allows_forward,
  allows_rollback,
}
use media_sync.Updater.Journal.Model.{UpdaterResultV2, is_valid, has_valid_checkpoint}
use media_sync.Updater.Journal.Advance.{on, stays, turns, Advances, same_bool_eq}

-- How far a status is beyond its first checkpoint.
unfoldable pub extra : UpdaterStatus → ℕ
extra verifying = 1
extra commit_requested = 1
extra success = 2
extra failed = 2
extra rolled_back = 1
extra rollback_failed = 1
extra _ = 0

unfoldable pub potential : UpdaterResultV2 → ℕ
unfolding extra
potential r = (if is_rollback r.checkpoint then 10 else 0) + index r.checkpoint + extra r.status

-- What validity says of the checkpoint.
pub valid_cases :
    (u : Unicode) (r : UpdaterResultV2)
    → is_valid u r ≡ true
    → ((is_rollback r.checkpoint ≡ true)
        × (r.rollback_started ≡ true)
        × (allows_rollback r.status (index r.checkpoint) ≡ true)
        × (is_some r.candidate_token_hash ≡ true))
      ⊎ ((is_rollback r.checkpoint ≡ false)
          × (r.rollback_started ≡ false)
          × (allows_forward r.status (index r.checkpoint) ≡ true)
          × (is_some r.candidate_token_hash ≡ leb 3 (index r.checkpoint))
          × (is_some r.candidate_container_id ≡ leb 6 (index r.checkpoint)))
unfolding is_valid has_valid_checkpoint index
valid_cases u r h = ground (
  arith,
  same_bool_eq r.rollback_started (is_rollback r.checkpoint),
  same_bool_eq (leb 3 (index r.checkpoint)) (is_some r.candidate_token_hash),
  same_bool_eq (leb 6 (index r.checkpoint)) (is_some r.candidate_container_id),
)

forward_grows :
    (s t : UpdaterStatus) (i j : ℕ)
    → allows_forward s i ≡ true
    → allows_forward t j ≡ true
    → is_terminal s ≡ false
    → (is_status t s ≡ true) ⊎ (can_transition s t ≡ true)
    → (j ≡ i + 1) ⊎ ((j ≡ i) × (is_status t s ≡ false))
    → i + extra s < j + extra t
unfolding allows_forward is_terminal is_status can_transition extra
forward_grows s t i j a b live status moves = ground arith

rollback_grows :
    (s t : UpdaterStatus) (i j : ℕ)
    → allows_rollback s i ≡ true
    → allows_rollback t j ≡ true
    → is_terminal s ≡ false
    → (is_status t s ≡ true) ⊎ (can_transition s t ≡ true)
    → (j ≡ i + 1) ⊎ ((j ≡ i) × (is_status t s ≡ false))
    → i + extra s < j + extra t
unfolding allows_rollback is_terminal is_status can_transition extra
rollback_grows s t i j a b live status moves = ground arith

turn_grows :
    (s t : UpdaterStatus) (i : ℕ)
    → allows_forward s i ≡ true
    → is_terminal s ≡ false
    → (is_status t s ≡ true) ⊎ (can_transition s t ≡ true)
    → t ≡ rolling_back
    → i + extra s < 10
unfolding allows_forward is_terminal is_status can_transition extra
turn_grows s t i a live status e = ground arith

-- A checkpoint raises the potential.
pub potential-Advances :
    (u : Unicode) (c r : UpdaterResultV2)
    → is_valid u c ≡ true
    → is_valid u r ≡ true
    → Advances c r
    → potential c < potential r
unfolding potential
potential-Advances u c r vc vr a = elim a.moves [
  | on side i ↦ ground (
    arith,
    valid_cases u c vc,
    valid_cases u r vr,
    forward_grows c.status r.status (index c.checkpoint) (index r.checkpoint),
    rollback_grows c.status r.status (index c.checkpoint) (index r.checkpoint),
    a.live,
    a.status,
  )
  | stays side i other ↦ ground (
    arith,
    valid_cases u c vc,
    valid_cases u r vr,
    forward_grows c.status r.status (index c.checkpoint) (index r.checkpoint),
    rollback_grows c.status r.status (index c.checkpoint) (index r.checkpoint),
    a.live,
    a.status,
  )
  | turns f b i s ↦ ground (
    arith,
    valid_cases u c vc,
    turn_grows c.status r.status (index c.checkpoint),
    a.live,
    a.status,
  )
]

forward-le : (s : UpdaterStatus) (i : ℕ) → allows_forward s i ≡ true → i ≤ 9 → i + extra s ≤ 11
unfolding allows_forward extra
forward-le s i a h = ground arith

rollback-le : (s : UpdaterStatus) (i : ℕ) → allows_rollback s i ≡ true → i ≤ 9 → i + extra s ≤ 10
unfolding allows_rollback extra
rollback-le s i a h = ground arith

pub potential-le : (u : Unicode) (r : UpdaterResultV2) → is_valid u r ≡ true → potential r ≤ 20
unfolding potential
potential-le u r v = ground (
  arith,
  valid_cases u r v,
  index-le r.checkpoint,
  forward-le r.status (index r.checkpoint),
  rollback-le r.status (index r.checkpoint),
)
