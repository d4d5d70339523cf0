-- ===== src/Updater/Errors.antt =====
-- What the updater raises: `UpdateSnapshotError`, `UpdaterHandoffError`, `UpdaterStateMachineError`,
-- `UpdaterCandidateError` and `UpdaterRecoveryObservationError`, each with its message, and the errors
-- of the Docker engine.
use media_sync.Prelude.{String, Bool, true, false, ◌≡◌, refl, ◌⊎◌, inl, inr}
use media_sync.Updates.Recovery.{UpdaterStatus}

pub data UpdaterError : Type 0 where
  snapshot_error : (message : String) → UpdaterError
  handoff_error : (message : String) → UpdaterError
  state_machine_error : (message : String) → UpdaterError
  candidate_error : (message : String) → UpdaterError
  observation_error : (message : String) → UpdaterError
  -- `UpdateSnapshotError(f"updater 状态转换无效：{…} -> {…}")`
  bad_transition : (from to : UpdaterStatus) → UpdaterError
  -- Whatever the engine, a verifier or the file system raises.
  foreign_error : (message : String) → UpdaterError

-- What a call returns or raises.
pub data Result (X : Type 0) : Type 0 where
  err : (raised : UpdaterError) → Result X
  ok : (value : X) → Result X

-- Statements after one another: the first exception ends the body.
abbrev pub ◌>>=◌ : {X Y : Type 0} → Result X → (X → Result Y) → Result Y
err raised >>= next = err raised
ok value >>= next = next value

abbrev pub ◌>>◌ : {Y : Type 0} → Result (Unit {0}) → Result Y → Result Y
first >> later = first >>= (λ done. later)

infixl 5 ◌>>◌ ◌>>=◌
-- `if test: raise error`
abbrev pub refuse : Bool → UpdaterError → Result (Unit {0})
refuse true e = err e
refuse false e = ok tt

pub Result-cases :
    {A : Type 0} (r : Result A) → ((e : UpdaterError) × (r ≡ err e)) ⊎ ((a : A) × (r ≡ ok a))
Result-cases (err e) = inl (e, refl)
Result-cases (ok a) = inr (a, refl)
