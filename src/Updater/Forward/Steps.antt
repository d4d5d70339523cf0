-- ===== src/Updater/Forward/Steps.antt =====
-- Each round of the forward path that ends without an error advances the result in the journal.
use media_sync.Prelude.{String, false, inl, inr, Bool-cases}
use media_sync.Updates.Recovery.{switching, verifying, commit_requested}
use media_sync.Updater.Errors.{UpdaterError, err}
use media_sync.Updater.Handoff.{HandoffDocument}
use media_sync.Updater.Checkpoint.{
  Checkpoint, initialized, old_restart_fenced, old_stopped, pending_ready, snapshot_verified,
  old_renamed, candidate_created, candidate_started, candidate_verified, commit_checkpoint,
  is_status, is_rollback,
}
use media_sync.Updater.Journal.Model.{UpdaterResultV2}
use media_sync.Updater.Journal.{CheckpointArgs}
use media_sync.Updater.Machine.{Collaborators, lift}
use media_sync.Updater.Machine.Keeps.{
  IsFrame, bind_keeps, then_keeps, return_keeps, lift_keeps, ask_keeps,
}
use media_sync.Updater.Machine.Tracks.{
  SameJournal, SameJournal-IsPreorder, SameJournal-IsFrame, Steps, bind-Steps, then-Steps,
  Steps-hook, write-Steps,
}
use media_sync.Updater.Forward.{
  plain, checkpoint, make_pending, make_candidate, run_candidate, verify_candidate, await_commit,
  round_at,
}
use media_sync.Updater.Forward.Framed.{
  fence_keeps, stop_keeps, snapshot_keeps, rename_keeps, create_keeps, start_keeps, identity_keeps,
}

ruleset quiet =
    (bind_keeps, then_keeps, return_keeps, lift_keeps, ask_keeps, SameJournal-IsPreorder)

ruleset steps = (then-Steps, bind-Steps, Steps-hook, write-Steps, quiet)

module _ {D : Type 0} (env : Collaborators D) where
  checkpoint-Steps :
      (k : String) (r : UpdaterResultV2) (a : CheckpointArgs)
      → Steps env.unicode k r (is_rollback a.checkpoint) (checkpoint env k a)
  unfolding checkpoint
  checkpoint-Steps k r a = search steps depth 12

  pub frame : IsFrame env SameJournal
  frame = SameJournal-IsFrame env

  pending-Steps :
      (document : HandoffDocument) (r : UpdaterResultV2)
      → Steps env.unicode document.operation_id r false (make_pending env document)
  unfolding make_pending is_rollback
  pending-Steps document r = search (steps, checkpoint-Steps, frame.prepare) depth 12

  make-Steps :
      (document : HandoffDocument) (r : UpdaterResultV2)
      → Steps env.unicode document.operation_id r false (make_candidate env document r)
  unfolding make_candidate is_rollback
  make-Steps document r =
      search (steps, checkpoint-Steps, frame.prepare, create_keeps frame) depth 12

  run-Steps :
      (document : HandoffDocument) (r : UpdaterResultV2)
      → Steps env.unicode document.operation_id r false (run_candidate env document r)
  unfolding run_candidate is_rollback
  run-Steps document r =
      search (steps, checkpoint-Steps, frame.prepare, identity_keeps frame, start_keeps frame) depth
        12

  verify-Steps :
      (document : HandoffDocument) (r : UpdaterResultV2)
      → Steps env.unicode document.operation_id r false (verify_candidate env document r)
  unfolding verify_candidate is_rollback
  verify-Steps document r =
      search (steps, checkpoint-Steps, frame.prepare, identity_keeps frame) depth 12

  await-Steps :
      (k : String) (r : UpdaterResultV2) → Steps env.unicode k r false (await_commit env k)
  unfolding await_commit is_rollback
  await-Steps k r = search (steps, checkpoint-Steps, frame.commit) depth 12

  fails-Steps :
      (k : String) (r : UpdaterResultV2) (e : UpdaterError)
      → Steps env.unicode k r false (lift {D = D} (err e))
  fails-Steps k r e = record { step = λ w w' r' t h. cc }

  -- A round that ends without an error advances the journal, and stays on the forward path.
  pub round-Steps :
      (document : HandoffDocument) (r : UpdaterResultV2) (c : Checkpoint)
      → Steps env.unicode document.operation_id r false (round_at env document r c)
  unfolding round_at is_rollback
  round-Steps document r initialized = search (then-Steps, checkpoint-Steps, fence_keeps frame)
  round-Steps document r old_restart_fenced =
      search (then-Steps, checkpoint-Steps, stop_keeps frame)
  round-Steps document r old_stopped = pending-Steps document r
  round-Steps document r pending_ready = search (then-Steps, checkpoint-Steps, snapshot_keeps frame)
  round-Steps document r snapshot_verified =
      search (then-Steps, checkpoint-Steps, rename_keeps frame)
  round-Steps document r old_renamed = make-Steps document r
  round-Steps document r candidate_created = run-Steps document r
  round-Steps document r candidate_started = elim (Bool-cases (is_status r.status switching)) [
    | inl e ↦ rw e (checkpoint-Steps document.operation_id r (plain verifying candidate_started))
    | inr e ↦ rw e (verify-Steps document r)
  ]
  round-Steps document r candidate_verified =
      checkpoint-Steps document.operation_id r (plain commit_requested commit_checkpoint)
  round-Steps document r commit_checkpoint = await-Steps document.operation_id r
  round-Steps document r _ = fails-Steps document.operation_id r _
