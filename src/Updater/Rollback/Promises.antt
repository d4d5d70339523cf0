-- ===== src/Updater/Rollback/Promises.antt =====
-- The promises of `UpdaterRollbackV2.execute` (`services/updater_rollback_v2.py`), whatever the
-- engine, the verifier and the fault hook do.
use media_sync.Prelude.{
  String, ◌≡◌, refl, sym, ◌∙◌, subst, Option, none, some, inl, inr, arith, Bool-cases,
}
use media_sync.Updates.Recovery.{rolled_back}
use media_sync.Updater.Errors.{UpdaterError, Result, ok, err}
use media_sync.Updater.Handoff.{HandoffDocument}
use media_sync.Updater.Checkpoint.{is_status}
use media_sync.Updater.Journal.Model.{UpdaterResultV2}
use media_sync.Updater.Journal.Advance.{is_status_eq}
use media_sync.Updater.Journal.Later.{IsCommitted}
use media_sync.Updater.Machine.{Collaborators, World, read_handoff}
use media_sync.Updater.Machine.Keeps.{
  Keeps, IsPreorder, bind_keeps, then_keeps, return_keeps, lift_keeps, ask_keeps, journal_ask_keeps,
  if_keeps,
}
use media_sync.Updater.Machine.Tracks.{Tracks, bind_done, same_entry}
use media_sync.Updater.Machine.Ensures.{read_handoff_ensures}
use media_sync.Updater.Forward.Total.{outcome_cases}
use media_sync.Updater.Forward.Outcome.{Anything, OnPath}
use media_sync.Updater.Rollback.{attempt, handle, recover, read_result, execute}
use media_sync.Updater.Rollback.Outcome.{read_result_ensures, attempt_ensures}

ruleset binds =
    (bind_keeps, then_keeps, return_keeps, lift_keeps, ask_keeps, journal_ask_keeps, if_keeps)

-- Nothing changed.
abbrev pub Untouched : {D : Type 0} → World D → World D → Type 0
Untouched w w' = w' ≡ w

Untouched-IsPreorder : {D : Type 0} → IsPreorder (Untouched {D = D})
Untouched-IsPreorder = record { stay = λ w. refl; chain = λ v w x p q. q ∙ p }

ok-Tracks :
    {D : Type 0} (k : String) (r s : UpdaterResultV2) (w : World D)
    → Tracks k w r
    → Tracks k w s
    → r ≡ s
ok-Tracks k r s w t t' = same_entry r s (sym t ∙ t')

module _ {D : Type 0} (env : Collaborators D) where
  pub handoff-Untouched : (k : String) → Keeps Untouched (read_handoff env k)
  unfolding read_handoff
  handoff-Untouched k = search (binds, Untouched-IsPreorder) depth 12

  pub result-Untouched : (k : String) → Keeps Untouched (read_result env k)
  unfolding read_result
  result-Untouched k = search (binds, Untouched-IsPreorder) depth 12

  handle_inv :
      (k : String) (q : Result (Option UpdaterResultV2) × World D) (v : World D)
      → handle env k q ≡ (ok tt, v)
      → (r : UpdaterResultV2) × (q ≡ (ok (some r), v))
  unfolding handle
  handle_inv k (ok (some r), w) v h = (r, cc)
  handle_inv k (ok none, w) v h = cc
  handle_inv k (err e, w) v h = ground arith

  recover_done :
      (document : HandoffDocument) (r : UpdaterResultV2) (w v : World D)
      → OnPath env.unicode document.operation_id r w
      → recover env document r w ≡ (ok tt, v)
      → (x : UpdaterResultV2) × Tracks document.operation_id v x × (x.status ≡ rolled_back)
  unfolding recover
  recover_done document r w v o h = elim (Bool-cases (is_status r.status rolled_back)) [
    | inl e ↦
        let same : w ≡ v = (let h' = (rw (recover, e) at h) in cc) in
        (
          r,
          subst (λ x. Tracks document.operation_id x r) same o.tracks,
          is_status_eq r.status rolled_back e,
        )
    | inr e ↦
        let h' : handle env document.operation_id (attempt env document r w) ≡ (ok tt, v) =
          (rw (recover, e) at h) in
        let (x, q) = handle_inv document.operation_id (attempt env document r w) v h' in
        let (y, last, t, s) = (attempt_ensures env document r).run w v (some x) o q in (y, t, s)
  ]

  -- A rollback that returns has the operation rolled back in the journal.
  pub rollback_execute_done :
      (k : String) (w v : World D)
      → execute env k w ≡ (ok tt, v)
      → (r : UpdaterResultV2) × Tracks k v r × (r.status ≡ rolled_back)
  unfolding execute
  rollback_execute_done k w v h =
      let (document, w₁, e₁, h₁) = bind_done (read_handoff env k) _ w h in
      let (_, named) = (read_handoff_ensures env k Anything).run w w₁ document tt e₁ in
      let (r, w₂, e₂, h₂) = bind_done (read_result env k) (λ r. recover env document r) w₁ h₁ in
      let (o, _) = (read_result_ensures env k).run w₁ w₂ r tt e₂ in
      let (x, t, s) =
        recover_done document r w₂ v (subst (λ key. OnPath env.unicode key r w₂) (sym named) o)
          h₂ in
      (x, subst (λ key. Tracks key v x) named t, s)

  -- Once the commit was requested, a rollback is refused: it raises, and neither the journal nor
  -- anything outside changes.
  pub rollback_execute_committed :
      (k : String) (w : World D) (r : UpdaterResultV2)
      → Tracks k w r
      → IsCommitted r.status
      → (e : UpdaterError) × (execute env k w ≡ (err e, w))
  unfolding execute
  rollback_execute_committed k w r t c = elim (outcome_cases (read_handoff env k w)) [
    | inl (e, v, h) ↦
        let same : v ≡ w = subst (λ (q : Result _ × World D). q.1 ≡ w) h (handoff-Untouched k w) in
        (e, rw (execute, h, same) refl)
    | inr (document, v, h) ↦
        let same : v ≡ w = subst (λ (q : Result _ × World D). q.1 ≡ w) h (handoff-Untouched k w) in
        elim (outcome_cases (read_result env k w)) [
          | inl (e, x, g) ↦
              let same' : x ≡ w =
                subst (λ (q : Result _ × World D). q.1 ≡ w) g (result-Untouched k w) in
              (e, rw (execute, h, same, g, same') refl)
          | inr (s, x, g) ↦
              let same' : x ≡ w =
                subst (λ (q : Result _ × World D). q.1 ≡ w) g (result-Untouched k w) in
              let (o, open_status) = (read_result_ensures env k).run w x s tt g in
              let is : s ≡ r = ok-Tracks k s r w (subst (λ y. Tracks k y s) same' o.tracks) t in
              absurd
                (open_status (subst (λ (y : UpdaterResultV2). IsCommitted y.status) (sym is) c))
        ]
  ]
