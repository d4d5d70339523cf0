-- ===== src/Updater/Forward/Runs.antt =====
-- A run of the forward path as a whole: its writes of the journal, what it leaves outside, and what a
-- result means.
use media_sync.Prelude.{ℕ, zero, suc, String, inl, inr, Bool-cases}
use media_sync.Updates.Recovery.{success}
use media_sync.Updater.Handoff.{HandoffDocument}
use media_sync.Updater.Checkpoint.{
  Checkpoint, initialized, old_restart_fenced, old_stopped, pending_ready, snapshot_verified,
  old_renamed, candidate_created, candidate_started, candidate_verified, commit_checkpoint,
  is_status,
}
use media_sync.Updater.Journal.Model.{UpdaterResultV2}
use media_sync.Updater.Journal.{CheckpointArgs}
use media_sync.Updater.Machine.{Collaborators, World, read_handoff, write_checkpoint, write_start}
use media_sync.Updater.Machine.Keeps.{
  Keeps, IsPreorder, IsFrame, bind_keeps, then_keeps, return_keeps, lift_keeps, ask_keeps,
  journal_ask_keeps, if_keeps,
}
use media_sync.Updater.Forward.Framed.{
  fence_keeps, stop_keeps, snapshot_keeps, rename_keeps, create_keeps, start_keeps, identity_keeps,
}
use media_sync.Updater.Forward.{
  checkpoint, start_result, load_result, load_or_start, validate_resumable, make_pending,
  make_candidate, run_candidate, verify_candidate, await_commit, round_at, round, forward_loop,
  run_loop,
}

ruleset binds =
    (bind_keeps, then_keeps, return_keeps, lift_keeps, ask_keeps, journal_ask_keeps, if_keeps)

-- A relation that every effect keeps, and every write of the journal.
pub record IsWritten {D : Type 0} (env : Collaborators D) (R : World D → World D → Type 0)
    : Type 0 where
  pub frame : IsFrame env R
  pub record_checkpoint : (k : String) (a : CheckpointArgs) → Keeps R (write_checkpoint env k a)
  pub record_start : (document : HandoffDocument) → Keeps R (write_start env document)

module _ {D : Type 0} {env : Collaborators D} {R : World D → World D → Type 0}
    (h : IsWritten env R) where
  order : IsPreorder R
  order = h.frame.order

  checkpoint_keeps : (k : String) (a : CheckpointArgs) → Keeps R (checkpoint env k a)
  unfolding checkpoint
  checkpoint_keeps k a = search (binds, order, h.record_checkpoint) depth 12

  load_keeps : (document : HandoffDocument) → Keeps R (load_or_start env document)
  unfolding load_or_start start_result load_result
  load_keeps document = search (binds, order, h.record_start) depth 12

  resumable_keeps : (r : UpdaterResultV2) → Keeps R (validate_resumable env r)
  unfolding validate_resumable
  resumable_keeps r = search (binds, order) depth 12

  read_keeps : (k : String) → Keeps R (read_handoff env k)
  unfolding read_handoff
  read_keeps k = search (binds, order) depth 12

  pending_keeps : (document : HandoffDocument) → Keeps R (make_pending env document)
  unfolding make_pending
  pending_keeps document = search (binds, order, h.frame.prepare, checkpoint_keeps) depth 12

  make_keeps :
      (document : HandoffDocument) (r : UpdaterResultV2) → Keeps R (make_candidate env document r)
  unfolding make_candidate
  make_keeps document r =
      search (binds, order, h.frame.prepare, checkpoint_keeps, create_keeps h.frame) depth 12

  run_keeps :
      (document : HandoffDocument) (r : UpdaterResultV2) → Keeps R (run_candidate env document r)
  unfolding run_candidate
  run_keeps document r =
      search
        (
          binds,
          order,
          h.frame.prepare,
          checkpoint_keeps,
          identity_keeps h.frame,
          start_keeps h.frame,
        )
        depth 12

  verify_keeps :
      (document : HandoffDocument) (r : UpdaterResultV2) → Keeps R (verify_candidate env document r)
  unfolding verify_candidate
  verify_keeps document r =
      search
        (binds, order, h.frame.prepare, checkpoint_keeps, identity_keeps h.frame, h.frame.verify)
        depth 12

  await_keeps : (k : String) → Keeps R (await_commit env k)
  unfolding await_commit
  await_keeps k = search (binds, order, checkpoint_keeps, h.frame.commit) depth 12

  round_keeps :
      (document : HandoffDocument) (r : UpdaterResultV2) (c : Checkpoint)
      → Keeps R (round_at env document r c)
  unfolding round_at
  round_keeps document r initialized = search (binds, order, checkpoint_keeps, fence_keeps h.frame)
  round_keeps document r old_restart_fenced =
      search (binds, order, checkpoint_keeps, stop_keeps h.frame)
  round_keeps document r old_stopped = pending_keeps document
  round_keeps document r pending_ready =
      search (binds, order, checkpoint_keeps, snapshot_keeps h.frame)
  round_keeps document r snapshot_verified =
      search (binds, order, checkpoint_keeps, rename_keeps h.frame)
  round_keeps document r old_renamed = make_keeps document r
  round_keeps document r candidate_created = run_keeps document r
  round_keeps document r candidate_started =
      search (binds, order, checkpoint_keeps, verify_keeps document r)
  round_keeps document r candidate_verified = checkpoint_keeps _ _
  round_keeps document r commit_checkpoint = await_keeps _
  round_keeps document r _ = search (binds, order)

  loop_keeps :
      (document : HandoffDocument) (n : ℕ) (r : UpdaterResultV2)
      → Keeps R (forward_loop env n document r)
  unfolding forward_loop
  loop_keeps document zero r w = order.stay w
  loop_keeps document (suc n) r w = elim (Bool-cases (is_status r.status success)) [
    | inl e ↦ rw (e, forward_loop) (order.stay w)
    | inr e ↦
        rw (e, forward_loop)
          (bind_keeps order (round env document r) (forward_loop env n document)
            (round_keeps document r r.checkpoint) (loop_keeps document n) w)
  ]

  pub run_loop_keeps : (k : String) → Keeps R (run_loop env k)
  unfolding run_loop
  run_loop_keeps k =
      search (binds, order, read_keeps, load_keeps, resumable_keeps, loop_keeps) depth 12
