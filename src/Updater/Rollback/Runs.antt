-- ===== src/Updater/Rollback/Runs.antt =====
-- A run of the way back as a whole: its writes of the journal.
use media_sync.Prelude.{ℕ, zero, suc, String, false, Option, none, some, inl, inr, Bool-cases}
use media_sync.Updates.Recovery.{rolled_back}
use media_sync.Updater.Errors.{Result, ok, err}
use media_sync.Updater.Handoff.{HandoffDocument}
use media_sync.Updater.Checkpoint.{
  Checkpoint, rollback_begun, candidate_stopped, candidate_removed, snapshot_restored,
  candidate_evidence_removed, old_name_restored, old_policy_restored, old_started, old_verified,
  rollback_published, is_status,
}
use media_sync.Updater.Journal.Model.{UpdaterResultV2}
use media_sync.Updater.Journal.{Entry, v1_entry, v2_entry, bad_entry, CheckpointArgs}
use media_sync.Updater.Journal.Writes.{none_yet}
use media_sync.Updater.Candidate.{CandidatePreparation}
use media_sync.Updater.Machine.{Collaborators, World, read_handoff}
use media_sync.Updater.Machine.Keeps.{
  Keeps, bind_keeps, then_keeps, return_keeps, lift_keeps, ask_keeps, journal_ask_keeps, if_keeps,
}
use media_sync.Updater.Forward.Promises.{
  Journaled, Journaled-IsFrame, Journaled-IsPreorder, write_checkpoint-Journaled,
}
use media_sync.Updater.Rollback.{
  checkpoint, read_result, begin, enter_or_resume, round_at, rollback_loop, attempt, mark_failed,
  record_rollback_failed, handle, recover, execute,
}
use media_sync.Updater.Rollback.Rules.{is_state_machine_error}
use media_sync.Updater.Rollback.Framed.{
  IsWhole, observe_keeps, stop_keeps, remove_keeps, snapshot_keeps, evidence_keeps, name_keeps,
  policy_keeps, start_keeps, verify_keeps, publish_keeps,
}

ruleset binds =
    (bind_keeps, then_keeps, return_keeps, lift_keeps, ask_keeps, journal_ask_keeps, if_keeps)

module _ {D : Type 0} (env : Collaborators D) where
  abbrev J : World D → World D → Type 0
  J = Journaled false env.unicode

  whole : IsWhole env J
  whole = record { frame = Journaled-IsFrame false env; remove = λ id w. none_yet }

  checkpoint_keeps : (k : String) (a : CheckpointArgs) → Keeps J (checkpoint env k a)
  unfolding checkpoint
  checkpoint_keeps k a =
      search (binds, Journaled-IsPreorder false env, write_checkpoint-Journaled false env) depth 12

  begin_keeps :
      (document : HandoffDocument) (r : UpdaterResultV2) (p : CandidatePreparation)
      → Keeps J (begin env document r p)
  unfolding begin
  begin_keeps document r p =
      search (binds, Journaled-IsPreorder false env, checkpoint_keeps, observe_keeps whole) depth 12

  enter_keeps :
      (document : HandoffDocument) (r : UpdaterResultV2) → Keeps J (enter_or_resume env document r)
  unfolding enter_or_resume
  enter_keeps document r =
      search (binds, Journaled-IsPreorder false env, begin_keeps, whole.frame.prepare) depth 12

  round_keeps :
      (document : HandoffDocument) (r : UpdaterResultV2) (p : CandidatePreparation) (c : Checkpoint)
      → Keeps J (round_at env document r p c)
  unfolding round_at
  round_keeps document r p rollback_begun =
      search (binds, Journaled-IsPreorder false env, checkpoint_keeps, stop_keeps whole)
  round_keeps document r p candidate_stopped =
      search (binds, Journaled-IsPreorder false env, checkpoint_keeps, remove_keeps whole)
  round_keeps document r p candidate_removed =
      search (binds, Journaled-IsPreorder false env, checkpoint_keeps, snapshot_keeps whole)
  round_keeps document r p snapshot_restored =
      search (binds, Journaled-IsPreorder false env, checkpoint_keeps, evidence_keeps whole)
  round_keeps document r p candidate_evidence_removed =
      search (binds, Journaled-IsPreorder false env, checkpoint_keeps, name_keeps whole)
  round_keeps document r p old_name_restored =
      search (binds, Journaled-IsPreorder false env, checkpoint_keeps, policy_keeps whole)
  round_keeps document r p old_policy_restored =
      search (binds, Journaled-IsPreorder false env, checkpoint_keeps, start_keeps whole)
  round_keeps document r p old_started =
      search (binds, Journaled-IsPreorder false env, checkpoint_keeps, verify_keeps whole)
  round_keeps document r p old_verified =
      search (binds, Journaled-IsPreorder false env, checkpoint_keeps, publish_keeps whole)
  round_keeps document r p rollback_published = checkpoint_keeps _ _
  round_keeps document r p _ = search (binds, Journaled-IsPreorder false env)

  loop_keeps :
      (document : HandoffDocument) (p : CandidatePreparation) (n : ℕ) (r : UpdaterResultV2)
      → Keeps J (rollback_loop env n document p r)
  unfolding rollback_loop
  loop_keeps document p zero r w = none_yet
  loop_keeps document p (suc n) r w = elim (Bool-cases (is_status r.status rolled_back)) [
    | inl e ↦ rw (e, rollback_loop) none_yet
    | inr e ↦
        rw (e, rollback_loop)
          (bind_keeps (Journaled-IsPreorder false env) (round_at env document r p r.checkpoint)
            (λ next. rollback_loop env n document p next) (round_keeps document r p r.checkpoint)
            (loop_keeps document p n) w)
  ]

  pub attempt_keeps :
      (document : HandoffDocument) (r : UpdaterResultV2) → Keeps J (attempt env document r)
  unfolding attempt
  attempt_keeps document r = search (binds, Journaled-IsPreorder false env, enter_keeps, loop_keeps)

  mark_keeps : (k : String) (e : Entry) → Keeps J (mark_failed env k e)
  unfolding mark_failed
  mark_keeps k (v1_entry r) w = none_yet
  mark_keeps k (bad_entry m) w = none_yet
  mark_keeps k (v2_entry r) w =
      search (binds, Journaled-IsPreorder false env, write_checkpoint-Journaled false env)

  record_keeps : (k : String) (w : World D) → J w (record_rollback_failed env k w)
  unfolding record_rollback_failed
  record_keeps k w = search (binds, Journaled-IsPreorder false env, mark_keeps)

  handle_keeps :
      (k : String) (v : World D) (q : Result (Option UpdaterResultV2) × World D)
      → J v q.1
      → J v (handle env k q).1
  unfolding handle
  handle_keeps k v (ok none, w) h = h
  handle_keeps k v (ok (some r), w) h = h
  handle_keeps k v (err e, w) h = elim (Bool-cases (is_state_machine_error e)) [
    | inl s ↦
        rw (handle, s)
          ((Journaled-IsPreorder false env).chain v w (record_rollback_failed env k w) h
            (record_keeps k w))
    | inr s ↦ rw (handle, s) h
  ]

  recover_keeps :
      (document : HandoffDocument) (r : UpdaterResultV2) → Keeps J (recover env document r)
  unfolding recover
  recover_keeps document r w = elim (Bool-cases (is_status r.status rolled_back)) [
    | inl e ↦ rw (recover, e) none_yet
    | inr e ↦
        rw (recover, e)
          (handle_keeps document.operation_id w (attempt env document r w)
            (attempt_keeps document r w))
  ]

  read_keeps : (k : String) → Keeps J (read_handoff env k)
  unfolding read_handoff
  read_keeps k = search (binds, Journaled-IsPreorder false env) depth 12

  result_keeps : (k : String) → Keeps J (read_result env k)
  unfolding read_result
  result_keeps k = search (binds, Journaled-IsPreorder false env) depth 12

  -- Whether it ends with a result or with an error, a rollback writes the journal by calls of
  -- `checkpoint_v2` alone, the record of its own failure included: it starts nothing and takes no
  -- operation over.
  pub rollback_execute-Journaled :
      (k : String) (w : World D) → Journaled false env.unicode w (execute env k w).1
  unfolding execute
  rollback_execute-Journaled k =
      search (binds, Journaled-IsPreorder false env, read_keeps, result_keeps, recover_keeps)
