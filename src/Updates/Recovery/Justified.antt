-- ===== src/Updates/Recovery/Justified.antt =====
-- When an action of `decide_recovery` is justified, as a table of its own.
use media_sync.Prelude.{
  ◌≡◌, refl, Bool, true, false, ◌&&◌, not, Option, none, some, inl, inr, arith, Bool-cases, subst,
  sym,
}
use media_sync.Updates.Recovery.{
  UpdaterStatus, snapshotting, switching, verifying, commit_requested, rolling_back, success,
  failed, rolled_back, rollback_failed, UpdaterResult, v1, v2, conflict, is_identity,
  DockerRecoveryObservation, RecoveryAction, start_new, continue_forward, begin_rollback,
  continue_rollback, reconcile_commit, cleanup_success, await_rollback_reconciliation, is_matched,
  is_running, decide_v1, decide_source, decide_v2, decide_result, decide_recovery,
}

-- The state of the updater's journal and of the containers in which an action is safe.
pub data Justified (o : DockerRecoveryObservation)
    : Option UpdaterResult → RecoveryAction → Type 0 where
  -- Nothing has begun, and the source container runs.
  fresh : is_matched o.source ≡ true → is_running o.source ≡ true → Justified o none start_new
  -- Interrupted before the switch, with the source container still running.
  forward :
      is_matched o.source ≡ true
      → is_running o.source ≡ true
      → Justified o (some (v2 snapshotting)) continue_forward
  -- The source container has been stopped or switched, and no commit has been asked for.
  stopped :
      is_matched o.source ≡ true
      → is_running o.source ≡ false
      → Justified o (some (v2 snapshotting)) begin_rollback
  switched : is_matched o.source ≡ true → Justified o (some (v2 switching)) begin_rollback
  unverified : is_matched o.source ≡ true → Justified o (some (v2 verifying)) begin_rollback
  undone : is_matched o.source ≡ true → Justified o (some (v2 rolling_back)) continue_rollback
  -- A commit was asked for, and the candidate container is known: never a rollback.
  committed_v1 :
      is_matched o.candidate ≡ true → Justified o (some (v1 commit_requested)) reconcile_commit
  committed_v2 :
      is_matched o.candidate ≡ true → Justified o (some (v2 commit_requested)) reconcile_commit
  -- The journal says that all is done.
  done_v1 : Justified o (some (v1 success)) cleanup_success
  done_v2 : Justified o (some (v2 success)) cleanup_success
  back_v1 : Justified o (some (v1 rolled_back)) await_rollback_reconciliation
  back_v2 : Justified o (some (v2 rolled_back)) await_rollback_reconciliation

-- The containers are known well enough to act at all.
abbrev pub is_clear : DockerRecoveryObservation → Bool
is_clear o =
    is_matched o.coordinator
    && not (is_identity o.source.status conflict)
    && not (is_identity o.candidate.status conflict)

v1-Justified :
    (status : UpdaterStatus) (o : DockerRecoveryObservation)
    → (decide_v1 status o).automatic ≡ true
    → Justified o (some (v1 status)) (decide_v1 status o).action
unfolding decide_v1
v1-Justified snapshotting o h = absurd (cc)
v1-Justified switching o h = absurd (cc)
v1-Justified verifying o h = absurd (cc)
v1-Justified rolling_back o h = absurd (cc)
v1-Justified failed o h = absurd (cc)
v1-Justified rollback_failed o h = absurd (cc)
v1-Justified success o h = done_v1
v1-Justified rolled_back o h = back_v1
v1-Justified commit_requested o h = elim (Bool-cases (is_matched o.candidate)) [
  | inl hit ↦ rw hit (committed_v1 hit)
  | inr miss ↦ absurd (ground arith)
]

v2-Justified :
    (status : UpdaterStatus) (o : DockerRecoveryObservation)
    → (decide_v2 status o).automatic ≡ true
    → Justified o (some (v2 status)) (decide_v2 status o).action
unfolding decide_v2 decide_source
v2-Justified failed o h = absurd (cc)
v2-Justified rollback_failed o h = absurd (cc)
v2-Justified success o h = done_v2
v2-Justified rolled_back o h = back_v2
v2-Justified commit_requested o h = elim (Bool-cases (is_matched o.candidate)) [
  | inl hit ↦ rw hit (committed_v2 hit)
  | inr miss ↦ absurd (ground arith)
]
v2-Justified rolling_back o h = elim (Bool-cases (is_matched o.source)) [
  | inl hit ↦ rw hit (undone hit)
  | inr miss ↦ absurd (ground arith)
]
v2-Justified switching o h = elim (Bool-cases (is_matched o.source)) [
  | inl hit ↦ rw hit (switched hit)
  | inr miss ↦ absurd (ground arith)
]
v2-Justified verifying o h = elim (Bool-cases (is_matched o.source)) [
  | inl hit ↦ rw hit (unverified hit)
  | inr miss ↦ absurd (ground arith)
]
v2-Justified snapshotting o h = elim (Bool-cases (is_matched o.source)) [
  | inl hit ↦ elim (Bool-cases (is_running o.source)) [
    | inl up ↦ rw (hit, up) (forward hit up)
    | inr down ↦ rw (hit, down) (stopped hit down)
  ]
  | inr miss ↦ absurd (ground arith)
]

result-Justified :
    (result : Option UpdaterResult) (o : DockerRecoveryObservation)
    → (decide_result result o).automatic ≡ true
    → Justified o result (decide_result result o).action
result-Justified (some (v1 status)) o h = v1-Justified status o h
result-Justified (some (v2 status)) o h = v2-Justified status o h
result-Justified none o h = elim (Bool-cases (is_matched o.source)) [
  | inl hit ↦ elim (Bool-cases (is_running o.source)) [
    | inl up ↦ rw (hit, up) (fresh hit up)
    | inr down ↦ absurd (ground arith)
  ]
  | inr miss ↦ absurd (ground arith)
]

clear-decision :
    (result : Option UpdaterResult) (o : DockerRecoveryObservation)
    → (decide_recovery result o).automatic ≡ true
    → (is_clear o ≡ true) × (decide_recovery result o ≡ decide_result result o)
unfolding decide_recovery
clear-decision result o h = elim (Bool-cases (is_matched o.coordinator)) [
  | inr unknown ↦ absurd (ground arith)
  | inl known ↦ elim (Bool-cases (is_identity o.source.status conflict)) [
    | inl bad ↦ absurd (ground arith)
    | inr fine ↦ elim (Bool-cases (is_identity o.candidate.status conflict)) [
      | inl bad ↦ absurd (ground arith)
      | inr good ↦ (ground arith, ground arith)
    ]
  ]
]

-- Whatever the journal and the containers look like, a decision that is carried out without an
-- operator is made only when the coordinator is known and neither container is in conflict, and its
-- action is justified by the journal's status and the containers: in particular a rollback begins
-- only with a known source container and before a commit was asked for, and a commit is reconciled
-- only with a known candidate.
pub decide_recovery-Justified :
    (result : Option UpdaterResult) (o : DockerRecoveryObservation)
    → (decide_recovery result o).automatic ≡ true
    → (is_clear o ≡ true) × Justified o result (decide_recovery result o).action
decide_recovery-Justified result o h =
    let (clear, same) = clear-decision result o h in
    (
      clear,
      subst (λ d. Justified o result d.action) (sym same)
          (result-Justified result o (subst (λ d. d.automatic ≡ true) same h)),
    )

result_complete :
    {o : DockerRecoveryObservation} {result : Option UpdaterResult} {action : RecoveryAction}
    → Justified o result action
    → ((decide_result result o).automatic ≡ true) × ((decide_result result o).action ≡ action)
unfolding decide_v1 decide_v2 decide_source
result_complete (fresh hit up) = (ground arith, ground arith)
result_complete (forward hit up) = (ground arith, ground arith)
result_complete (stopped hit down) = (ground arith, ground arith)
result_complete (switched hit) = (ground arith, ground arith)
result_complete (unverified hit) = (ground arith, ground arith)
result_complete (undone hit) = (ground arith, ground arith)
result_complete (committed_v1 hit) = (ground arith, ground arith)
result_complete (committed_v2 hit) = (ground arith, ground arith)
result_complete done_v1 = (refl, refl)
result_complete done_v2 = (refl, refl)
result_complete back_v1 = (refl, refl)
result_complete back_v2 = (refl, refl)

-- And the other way round: where the containers are known and an action is justified, the updater
-- takes that action, and takes it without an operator.
pub decide_recovery_complete :
    (result : Option UpdaterResult) (o : DockerRecoveryObservation) (action : RecoveryAction)
    → is_clear o ≡ true
    → Justified o result action
    → ((decide_recovery result o).automatic ≡ true) × ((decide_recovery result o).action ≡ action)
unfolding decide_recovery
decide_recovery_complete result o action clear j = ground (arith, clear, result_complete j)
