-- ===== src/Updater/Rollback/Settled.antt =====
-- How `UpdaterRollbackV2.execute` (`services/updater_rollback_v2.py`) leaves an operation when it raises.
use media_sync.Prelude.{
  String, ◌≡◌, sym, ap, ◌∙◌, subst, ◌⊎◌, inl, inr, true, false, some, Bool-cases, Option,
}
use media_sync.Updates.Recovery.{rolling_back, rolled_back}
use media_sync.Updater.Errors.{UpdaterError, state_machine_error, Result, ok, err}
use media_sync.Updater.Handoff.{HandoffDocument}
use media_sync.Updater.Checkpoint.{is_status}
use media_sync.Updater.Journal.Model.{UpdaterResultV2, is_error_code}
use media_sync.Updater.Journal.Sound.{IsSoundEntry, Calls-Sound}
use media_sync.Updater.Journal.Writes.{Writes, Writes-Calls}
use media_sync.Updater.Machine.{Collaborators, World, read_handoff}
use media_sync.Updater.Machine.Tracks.{Tracks}
use media_sync.Updater.Machine.Ensures.{read_handoff_ensures}
use media_sync.Updater.Forward.Total.{outcome_cases}
use media_sync.Updater.Forward.Outcome.{Anything, OnPath}
use media_sync.Updater.Rollback.{
  attempt, handle, recover, read_result, execute, record_rollback_failed,
}
use media_sync.Updater.Rollback.Rules.{is_state_machine_error}
use media_sync.Updater.Rollback.Outcome.{read_result_ensures, attempt_ensures}
use media_sync.Updater.Rollback.Runs.{attempt_keeps}
use media_sync.Updater.Rollback.Promises.{handoff-Untouched, result-Untouched}
use media_sync.Updater.Rollback.Failure.{IsRolling, record_settles}

-- The error of a rollback that can be tried again.
abbrev pub retry_error : UpdaterError
retry_error = state_machine_error "updater v2 自动回滚暂时失败，可从当前检查点重试"

module _ {D : Type 0} (env : Collaborators D) where
  handle_unsettled :
      (k : String) (x : UpdaterError) (v₀ v : World D) (e : UpdaterError)
      → IsSoundEntry env.unicode k (v₀.journal k)
      → is_error_code env.unicode (some "automatic_rollback_failed") ≡ true
      → handle env k (err x, v₀) ≡ (err e, v)
      → IsRolling k v
      → e ≡ retry_error
  unfolding handle
  handle_unsettled k x v₀ v e sound code h left = elim (Bool-cases (is_state_machine_error x)) [
    | inl is ↦
        let h' : (err x, record_rollback_failed env k v₀) ≡ (err e, v) = (rw (handle, is) at h) in
        let same : record_rollback_failed env k v₀ ≡ v = cc in
        absurd (record_settles env k v₀ sound code (subst (IsRolling k) (sym same) left))
    | inr other ↦ let h' : (err retry_error, v₀) ≡ (err e, v) = (rw (handle, other) at h) in cc
  ]

  recover_unsettled :
      (document : HandoffDocument) (r : UpdaterResultV2) (w v : World D) (e : UpdaterError)
      → OnPath env.unicode document.operation_id r w
      → IsSoundEntry env.unicode document.operation_id (w.journal document.operation_id)
      → is_error_code env.unicode (some "automatic_rollback_failed") ≡ true
      → recover env document r w ≡ (err e, v)
      → IsRolling document.operation_id v
      → e ≡ retry_error
  unfolding recover
  recover_unsettled document r w v e o sound code h left =
      elim (Bool-cases (is_status r.status rolled_back)) [
        | inl is ↦ (let h' = (rw (recover, is) at h) in cc)
        | inr other ↦
            let h' : handle env document.operation_id (attempt env document r w) ≡ (err e, v) =
              (rw (recover, other) at h) in
            elim (outcome_cases (attempt env document r w)) [
              | inl (x, v₀, q) ↦
                  let kept : Writes false env.unicode w.journal v₀.journal =
                    subst
                      (λ (p : Result (Option UpdaterResultV2) × World D).
                        Writes false env.unicode w.journal p.1.journal)
                      q (attempt_keeps env document r w) in
                  let sound' = Calls-Sound document.operation_id (Writes-Calls kept) sound in
                  handle_unsettled document.operation_id x v₀ v e sound' code
                    (ap (handle env document.operation_id) (sym q) ∙ h') left
              | inr (last, v₀, q) ↦
                  let (y, is, _, _) = (attempt_ensures env document r).run w v₀ last o q in
                  let ends : handle env document.operation_id (ok (some y), v₀) ≡ (err e, v) =
                    ap (λ l. handle env document.operation_id (ok l, v₀)) (sym is)
                    ∙ ap (handle env document.operation_id) (sym q)
                    ∙ h' in
                  cc
            ]
      ]

  -- A rollback that raises leaves the operation rolling back only where it changed nothing, or where
  -- its error says that it can be retried from the checkpoint. The journal has nothing or a result in
  -- order for the operation before, and "automatic_rollback_failed" is alphanumeric but for its marks.
  pub rollback_execute_unsettled :
      (k : String) (w v : World D) (e : UpdaterError) (r : UpdaterResultV2)
      → IsSoundEntry env.unicode k (w.journal k)
      → is_error_code env.unicode (some "automatic_rollback_failed") ≡ true
      → execute env k w ≡ (err e, v)
      → Tracks k v r
      → r.status ≡ rolling_back
      → (v ≡ w) ⊎ (e ≡ retry_error)
  unfolding execute
  rollback_execute_unsettled k w v e r sound code h t s =
      elim (outcome_cases (read_handoff env k w)) [
        | inl (x, y, q) ↦
            let same : y ≡ w =
              subst (λ (p : Result HandoffDocument × World D). p.1 ≡ w) q
                (handoff-Untouched env k w) in
            let h' : (err x, y) ≡ (err e, v) = (rw (execute, q) at h) in inl cc
        | inr (document, y, q) ↦
            let same : y ≡ w =
              subst (λ (p : Result HandoffDocument × World D). p.1 ≡ w) q
                (handoff-Untouched env k w) in
            let (_, named) = (read_handoff_ensures env k Anything).run w y document tt q in
            elim (outcome_cases (read_result env k y)) [
              | inl (x, z, g) ↦
                  let same' : z ≡ y =
                    subst (λ (p : Result UpdaterResultV2 × World D). p.1 ≡ y) g
                      (result-Untouched env k y) in
                  let h' : (err x, z) ≡ (err e, v) = (rw (execute, q, g) at h) in inl cc
              | inr (c, z, g) ↦
                  let same' : z ≡ y =
                    subst (λ (p : Result UpdaterResultV2 × World D). p.1 ≡ y) g
                      (result-Untouched env k y) in
                  let (o, _) = (read_result_ensures env k).run y z c tt g in
                  let h' : recover env document c z ≡ (err e, v) = (rw (execute, q, g) at h) in
                  let sound' : IsSoundEntry env.unicode k (z.journal k) =
                    subst (λ (x : World D). IsSoundEntry env.unicode k (x.journal k))
                      (sym (same' ∙ same)) sound in
                  inr (
                    recover_unsettled document c z v e
                      (subst (λ key. OnPath env.unicode key c z) (sym named) o)
                      (subst (λ key. IsSoundEntry env.unicode key (z.journal key)) (sym named)
                        sound')
                      code h' (subst (λ key. IsRolling key v) (sym named) (r, t, s)))
            ]
      ]
