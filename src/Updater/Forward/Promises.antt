-- ===== src/Updater/Forward/Promises.antt =====
-- The promises of `UpdaterForwardV2.execute` (`services/updater_forward_v2.py`), whatever the engine,
-- the verifiers and the fault hook do.
use media_sync.Prelude.{
  String, ◌≡◌, refl, sym, Bool, true, ap, ◌∙◌, subst, Option, none, some, ◌⊎◌, inl, inr,
  Option-cases,
}
use media_sync.Updates.Recovery.{success}
use media_sync.Updater.Text.{Unicode}
use media_sync.Updater.Errors.{Result, ok, err}
use media_sync.Updater.Handoff.{HandoffDocument}
use media_sync.Updater.Journal.Model.{UpdaterResultV2}
use media_sync.Updater.Journal.{Directory, CheckpointArgs, start_v2, checkpoint_v2}
use media_sync.Updater.Journal.Writes.{
  Write, Writes, none_yet, then_one, begun, recorded, Writes-trans,
}
use media_sync.Updater.Machine.{
  Collaborators, World, return, lift, commit, call, write_checkpoint, write_start,
}
use media_sync.Updater.Machine.Keeps.{
  Keeps, IsPreorder, IsFrame, bind_keeps, then_keeps, return_keeps, lift_keeps, ask_keeps, if_keeps,
}
use media_sync.Updater.Machine.Tracks.{
  Tracks, SameJournal, SameJournal-IsFrame, bind_done, then_done, lift_done,
}
use media_sync.Updater.Forward.Effects.{cleanup_old, remove_source, require_candidate_id}
use media_sync.Updater.Forward.{run_loop, finish, execute}
use media_sync.Updater.Forward.Runs.{run_loop_keeps}
use media_sync.Updater.Forward.Total.{outcome_cases}
use media_sync.Updater.Forward.Outcome.{run_loop_ensures}

ruleset binds = (bind_keeps, then_keeps, return_keeps, lift_keeps, ask_keeps, if_keeps)

-- The journal of `w'` is that of `w` after some writes by `checkpoint_v2`, and by `start_v2` where
-- `may_start` says so.
abbrev pub Journaled : {D : Type 0} → Bool → Unicode → World D → World D → Type 0
Journaled may_start u w w' = Writes may_start u w.journal w'.journal

module _ {D : Type 0} (may_start : Bool) (env : Collaborators D) where
  pub Journaled-IsPreorder : IsPreorder (Journaled {D = D} may_start env.unicode)
  Journaled-IsPreorder = record {
    stay = λ w. none_yet;
    chain = λ v w x p q. Writes-trans v.journal w.journal x.journal p q;
  }

  pub Journaled-IsFrame : IsFrame env (Journaled may_start env.unicode)
  Journaled-IsFrame = record {
    order = Journaled-IsPreorder;
    policy = λ id p w. none_yet;
    stop = λ id n w. none_yet;
    wait = λ id w. none_yet;
    rename = λ id name w. none_yet;
    create = λ name c w. none_yet;
    start = λ id w. none_yet;
    snapshot = λ k w. none_yet;
    check = λ k w. none_yet;
    restore = λ k w. none_yet;
    verify = λ document p id w. none_yet;
    verify_old = λ document id w. none_yet;
    commit = λ k w. none_yet;
    unlink = λ k w. none_yet;
    prepare = λ document w. none_yet;
  }

  pub commit-Journaled :
      {A : Type 0} (w : World D) (p : Result (A × Directory))
      → ((a : A) (d : Directory) → p ≡ ok (a, d) → Write may_start env.unicode w.journal d)
      → Journaled may_start env.unicode w (commit w p).1
  commit-Journaled w (ok (a, d)) h = then_one none_yet (h a d refl)
  commit-Journaled w (err e) h = none_yet

  pub write_checkpoint-Journaled :
      (k : String) (a : CheckpointArgs)
      → Keeps (Journaled may_start env.unicode) (write_checkpoint env k a)
  unfolding write_checkpoint
  write_checkpoint-Journaled k a w =
      commit-Journaled w (checkpoint_v2 env.unicode k a (env.now w.outside) w.journal)
        λ r d e. recorded k a (env.now w.outside) e

module _ {D : Type 0} (env : Collaborators D) where
  write_start-Journaled :
      (document : HandoffDocument) → Keeps (Journaled true env.unicode) (write_start env document)
  unfolding write_start
  write_start-Journaled document w =
      commit-Journaled true env w
        (start_v2 env.unicode document env.coordinator_container_id (env.now w.outside) w.journal)
        λ r d e. begun document env.coordinator_container_id (env.now w.outside) refl e

  -- What follows the loop keeps a relation that every effect keeps, the removal as well.
  finish_keeps :
      (R : World D → World D → Type 0)
      → IsFrame env R
      → ((id : String) → Keeps R (call (env.engine.remove_container id)))
      → (document : HandoffDocument) (last : Option UpdaterResultV2)
      → Keeps R (finish env document last)
  unfolding finish cleanup_old remove_source
  finish_keeps R h remove document none = search (binds, h.order)
  finish_keeps R h remove document (some r) = search (binds, h.order, remove) depth 14

  -- Whether it ends with a result or with an error, a run writes the journal by calls of
  -- `start_v2` and `checkpoint_v2` alone: it takes no operation over, and it never writes by the
  -- calls of the first protocol.
  pub execute-Journaled :
      (k : String) (w : World D) → Journaled true env.unicode w (execute env k w).1
  unfolding execute
  execute-Journaled k w =
      bind_keeps (Journaled-IsPreorder true env) (run_loop env k) (λ p. finish env p.0 p.1)
        (run_loop_keeps
          (record {
            frame = Journaled-IsFrame true env;
            record_checkpoint = write_checkpoint-Journaled true env;
            record_start = write_start-Journaled;
          })
          k)
        (λ p.
          finish_keeps (Journaled true env.unicode) (Journaled-IsFrame true env) (λ id v. none_yet)
            p.0 p.1)
        w

  require_inv :
      (r : UpdaterResultV2) (id : String)
      → require_candidate_id r ≡ ok id
      → r.candidate_container_id ≡ some id
  unfolding require_candidate_id
  require_inv r id h = elim (Option-cases r.candidate_container_id) [
    | inl e ↦ absurd cc (rw e at h)
    | inr (x, e) ↦ let same : x ≡ id = (let h' = (rw e at h) in cc) in e ∙ ap some same
  ]

  cleanup_keeps_journal :
      (document : HandoffDocument) (last : Option UpdaterResultV2)
      → Keeps SameJournal (finish env document last)
  cleanup_keeps_journal document last =
      finish_keeps SameJournal (SameJournal-IsFrame env) (λ id w. refl) document last

  finish_inv :
      (document : HandoffDocument) (r : UpdaterResultV2) (w v : World D) (id : String)
      → finish env document (some r) w ≡ (ok id, v)
      → r.candidate_container_id ≡ some id
  unfolding finish
  finish_inv document r w v id h =
      let (a, w₁, e₁, e₂) = bind_done (lift (require_candidate_id r)) _ w h in
      let (w₂, e₃, e₄) = then_done (cleanup_old env document r) (return a) w₁ e₂ in
      let (found, _) = lift_done (require_candidate_id r) w e₁ in
      let (same, _) = lift_done (ok a) w₂ e₄ in require_inv r id (found ∙ same)

  finish-Tracks :
      (k : String) (p : HandoffDocument × Option UpdaterResultV2) (x : UpdaterResultV2)
      (w : World D)
      → Tracks k w x
      → Tracks k (finish env p.0 p.1 w).1 x
  finish-Tracks k p x w t = ap (λ (d : Directory). d k) (cleanup_keeps_journal p.0 p.1 w) ∙ t

  -- A run that returns has the operation's success in the journal, and returns the id of the
  -- candidate that the journal names.
  pub execute_success :
      (k id : String) (w v : World D)
      → execute env k w ≡ (ok id, v)
      → (r : UpdaterResultV2) × Tracks k v r
        × (r.status ≡ success)
        × (r.candidate_container_id ≡ some id)
  unfolding execute
  execute_success k id w v h =
      let (p, w₁, e₁, e₂) = bind_done (run_loop env k) (λ p. finish env p.0 p.1) w h in
      let (_, (x, last, t, s)) = (run_loop_ensures env k).run w w₁ p tt e₁ in
      let e₃ : finish env p.0 (some x) w₁ ≡ (ok id, v) =
        ap (λ o. finish env p.0 o w₁) (sym last) ∙ e₂ in
      let here : Tracks k v x =
        subst (λ (q : Result String × World D). Tracks k q.1 x) e₂ (finish-Tracks k p x w₁ t) in
      (x, here, s, finish_inv p.0 x w₁ v id e₃)

  -- `P` is kept.
  abbrev pub Guards : (D → Type 0) → World D → World D → Type 0
  Guards P w w' = P w.outside → P w'.outside

  commit-Guards :
      (P : D → Type 0) {A : Type 0} (w : World D) (p : Result (A × Directory))
      → Guards P w (commit w p).1
  commit-Guards P w (ok (a, d)) h = h
  commit-Guards P w (err e) h = h

  loop-Guards :
      (P : D → Type 0) → IsFrame env (Guards P) → (k : String) → Keeps (Guards P) (run_loop env k)
  unfolding write_checkpoint write_start
  loop-Guards P h k =
      run_loop_keeps
        (record {
          frame = h;
          record_checkpoint = λ key a w. commit-Guards P w _;
          record_start = λ document w. commit-Guards P w _;
        })
        k

  -- What every call but the removal of a container keeps, a run keeps as well, unless the journal
  -- says that the operation succeeded: the old container is never removed before that.
  pub execute-Guards :
      (P : D → Type 0) (k : String) (w : World D)
      → IsFrame env (Guards P)
      → P w.outside
      → P (execute env k w).1.outside
        ⊎ ((r : UpdaterResultV2) × Tracks k (execute env k w).1 r × (r.status ≡ success))
  unfolding execute
  execute-Guards P k w h p = elim (outcome_cases (run_loop env k w)) [
    | inl (e, v, q) ↦
        let there : P v.outside =
          subst (λ (x : Result _ × World D). P x.1.outside) q (loop-Guards P h k w p) in
        inl (rw (execute, q) there)
    | inr (a, v, q) ↦
        let (_, (x, last, t, s)) = (run_loop_ensures env k).run w v a tt q in
        inr (x, rw (execute, q) (finish-Tracks k a x v t), s)
  ]
