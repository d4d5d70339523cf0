-- ===== src/Updater/Rollback/Outcome.antt =====
-- What a run of `UpdaterRollbackV2.execute` (`services/updater_rollback_v2.py`) leaves behind.
use media_sync.Prelude.{
  String, ◌≡◌, refl, sym, ap, ◌∙◌, subst, true, Option, some, if◌then◌else◌, arith,
}
use media_sync.Updates.Recovery.{rolling_back, rolled_back}
use media_sync.Updater.Text.{Unicode}
use media_sync.Updater.Errors.{Result, ok, err}
use media_sync.Updater.Handoff.{HandoffDocument}
use media_sync.Updater.Checkpoint.{is_rollback, is_status, allows_forward}
use media_sync.Updater.Journal.Model.{UpdaterResultV2, is_valid}
use media_sync.Updater.Journal.{Entry, v1_entry, v2_entry, bad_entry, Directory, read}
use media_sync.Updater.Journal.Inversion.{read_inv}
use media_sync.Updater.Journal.Advance.{is_status_eq}
use media_sync.Updater.Journal.Later.{IsCommitted}
use media_sync.Updater.Journal.Potential.{valid_cases}
use media_sync.Updater.Candidate.{CandidatePreparation}
use media_sync.Updater.Machine.{Collaborators, World, M, return, hook, prepare_candidate}
use media_sync.Updater.Machine.Keeps.{
  Keeps, bind_keeps, then_keeps, return_keeps, lift_keeps, ask_keeps, journal_ask_keeps, if_keeps,
}
use media_sync.Updater.Machine.Tracks.{
  Tracks, SameJournal, SameJournal-IsPreorder, Steps, bind-Steps, then-Steps,
}
use media_sync.Updater.Machine.Ensures.{
  Ensures, bind_ensures, then_ensures, return_ensures, lift_ensures, pass_ensures, if_ensures,
}
use media_sync.Updater.Forward.Outcome.{Anything, OnPath, answer_inv}
use media_sync.Updater.Rollback.{read_result, begin, enter_or_resume, rollback_loop, attempt}
use media_sync.Updater.Rollback.Rules.{expect_rollback}
use media_sync.Updater.Rollback.Framed.{observe_keeps}
use media_sync.Updater.Rollback.Total.{
  whole, checkpoint-Steps, RollbackEnds, raised, restored, rollback_loop-Ends,
}

ruleset quiet = (
  bind_keeps, then_keeps, return_keeps, lift_keeps, ask_keeps, journal_ask_keeps, if_keeps,
  SameJournal-IsPreorder,
)

-- An entry that a rollback accepts is of version 2, and not committed.
pub expect_rollback_inv :
    (c : String) (e : Entry) (r : UpdaterResultV2)
    → expect_rollback c e ≡ ok r
    → (e ≡ v2_entry r) × (IsCommitted r.status → ⊥)
unfolding expect_rollback
expect_rollback_inv c (v1_entry s) r h = cc
expect_rollback_inv c (bad_entry m) r h = cc
expect_rollback_inv c (v2_entry s) r h = ground arith

rolling-is_rollback :
    (u : Unicode) (r : UpdaterResultV2)
    → is_valid u r ≡ true
    → r.status ≡ rolling_back
    → is_rollback r.checkpoint ≡ true
unfolding allows_forward
rolling-is_rollback u r v e = ground (arith, valid_cases u r v)

-- The result is in the journal, valid, and on the way back.
abbrev Back : {D : Type 0} → Unicode → String → UpdaterResultV2 → World D → Type 0
Back u k r w = OnPath u k r w × (is_rollback r.checkpoint ≡ true)

module _ {D : Type 0} (env : Collaborators D) where
  pub read_result_ensures :
      (k : String)
      → Ensures Anything
          (read_result env k)
          (λ r w. OnPath env.unicode k r w × (IsCommitted r.status → ⊥))
  unfolding read_result
  read_result_ensures k =
      bind_ensures (λ (e : Entry) w. read env.unicode k w.journal ≡ ok e)
        (record {
          run = λ w v a p e.
              let (found, same) = answer_inv (read env.unicode k w.journal) w v a e in
              ap (λ (x : World D). read env.unicode k x.journal) same ∙ found;
        })
        (λ e. lift_ensures λ r w h p.
          let (at, open_status) = expect_rollback_inv env.coordinator_container_id e r h in
          let (there, valid, named) = read_inv env.unicode k w.journal r (p ∙ ap ok at) in
          (record { tracks = there; valid = valid }, open_status))

  begin-Steps :
      (document : HandoffDocument) (r : UpdaterResultV2) (p : CandidatePreparation)
      → Steps env.unicode document.operation_id r true (begin env document r p)
  unfolding begin is_rollback
  begin-Steps document r p =
      search (then-Steps, bind-Steps, checkpoint-Steps env, quiet, observe_keeps (whole env)) depth
        12

  begin_ensures :
      (document : HandoffDocument) (r : UpdaterResultV2) (p : CandidatePreparation)
      → Ensures
          (OnPath env.unicode document.operation_id r)
          (begin env document r p)
          (Back env.unicode document.operation_id)
  begin_ensures document r p = record {
    run = λ w v r' o e.
        let (s, back) = (begin-Steps document r p).step w v r' o.tracks e in
        (record { tracks = s.tracks; valid = s.valid }, back);
  }

  same_path :
      {A : Type 0} (u : Unicode) (k : String) (r : UpdaterResultV2) (m : M D A)
      → Keeps SameJournal m
      → Ensures (OnPath u k r) m (λ _. OnPath u k r)
  same_path u k r m h = record {
    run = λ w v a o e. record {
      tracks =
          ap (λ (d : Directory). d k) (sym (ap (λ (q : Result _ × World D). q.1.journal) e) ∙ h w)
          ∙ o.tracks;
      valid = o.valid;
    };
  }

  entered_ensures :
      (document : HandoffDocument) (r : UpdaterResultV2) (p : CandidatePreparation)
      → Ensures
          (OnPath env.unicode document.operation_id r)
          (if is_status r.status rolling_back then return r else begin env document r p)
          (Back env.unicode document.operation_id)
  entered_ensures document r p =
      if_ensures (is_status r.status rolling_back)
        (λ e. return_ensures λ w o.
          (o, rolling-is_rollback env.unicode r o.valid (is_status_eq r.status rolling_back e)))
        (λ e. begin_ensures document r p)

  enter_ensures :
      (document : HandoffDocument) (r : UpdaterResultV2)
      → Ensures
          (OnPath env.unicode document.operation_id r)
          (enter_or_resume env document r)
          (λ q w. Back env.unicode document.operation_id q.0 w)
  unfolding enter_or_resume
  enter_ensures document r =
      then_ensures (OnPath env.unicode document.operation_id r)
        (same_path env.unicode document.operation_id r
          (if is_status r.status rolling_back
            then return tt
            else hook env "before:rollback_started")
          (if_keeps SameJournal-IsPreorder (is_status r.status rolling_back) (return tt)
            (hook env "before:rollback_started") (λ w. refl) (λ w. refl)))
        (bind_ensures (λ _. OnPath env.unicode document.operation_id r)
          (same_path env.unicode document.operation_id r (prepare_candidate env document)
            (λ w. refl))
          λ p. then_ensures (OnPath env.unicode document.operation_id r) pass_ensures (
            bind_ensures (Back env.unicode document.operation_id) (entered_ensures document r p)
              λ x. return_ensures λ w o. o))

  -- The `try` ended with the operation rolled back.
  abbrev pub RolledBack : String → Option UpdaterResultV2 → World D → Type 0
  RolledBack k last v =
      (x : UpdaterResultV2) × (last ≡ some x) × Tracks k v x × (x.status ≡ rolled_back)

  Verdict : String → Result (Option UpdaterResultV2) × World D → Type 0
  Verdict k (ok last, v) = RolledBack k last v
  Verdict k (err e, v) = Unit

  RollbackEnds-Verdict :
      {k : String} {q : Result (Option UpdaterResultV2) × World D} → RollbackEnds k q → Verdict k q
  unfolding Verdict
  RollbackEnds-Verdict (raised e v) = tt
  RollbackEnds-Verdict (restored r v t s) = (r, refl, t, s)

  loop_ensures :
      (document : HandoffDocument) (p : CandidatePreparation) (r : UpdaterResultV2)
      → Ensures
          (Back env.unicode document.operation_id r)
          (rollback_loop env 11 document p r)
          (RolledBack document.operation_id)
  unfolding Verdict
  loop_ensures document p r = record {
    run = λ w v last o e.
        subst (Verdict document.operation_id) e
          (RollbackEnds-Verdict (rollback_loop-Ends env document p r w o.0.tracks o.0.valid o.1));
  }

  pub attempt_ensures :
      (document : HandoffDocument) (r : UpdaterResultV2)
      → Ensures
          (OnPath env.unicode document.operation_id r)
          (attempt env document r)
          (RolledBack document.operation_id)
  unfolding attempt
  attempt_ensures document r =
      bind_ensures
        (λ (q : UpdaterResultV2 × CandidatePreparation). Back env.unicode document.operation_id q.0)
        (enter_ensures document r) (λ q. loop_ensures document q.1 q.0)
