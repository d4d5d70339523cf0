-- ===== src/Updater/Rollback/Framed.antt =====
-- Every effect of the way back keeps a relation that the single calls keep.
use media_sync.Prelude.{String}
use media_sync.Updater.Handoff.{HandoffDocument}
use media_sync.Updater.Journal.Model.{UpdaterResultV2}
use media_sync.Updater.Candidate.{CandidatePreparation}
use media_sync.Updates.Recovery.{DockerRecoveryObservation}
use media_sync.Updater.Machine.{Collaborators, World, call, observe_containers}
use media_sync.Updater.Machine.Keeps.{
  Keeps, IsFrame, bind_keeps, then_keeps, return_keeps, lift_keeps, ask_keeps, journal_ask_keeps,
  if_keeps,
}
use media_sync.Updater.Rollback.Effects.{
  observe_safely, stop_candidate, remove_seen, remove_candidate, restore_verified, restore_snapshot,
  remove_candidate_evidence, inspect_source, restore_old_name, restore_old_policy, start_old,
  verify_old, publish,
}

ruleset binds =
    (bind_keeps, then_keeps, return_keeps, lift_keeps, ask_keeps, journal_ask_keeps, if_keeps)

-- A relation that the removal of a container keeps as well.
pub record IsWhole {D : Type 0} (env : Collaborators D) (R : World D → World D → Type 0)
    : Type 0 where
  pub frame : IsFrame env R
  pub remove : (id : String) → Keeps R (call (env.engine.remove_container id))

module _ {D : Type 0} {env : Collaborators D} {R : World D → World D → Type 0}
    (h : IsWhole env R) where
  pub observe_keeps :
      (document : HandoffDocument) (r : UpdaterResultV2) (p : CandidatePreparation)
      → Keeps R (observe_containers env document r p)
  unfolding observe_containers
  observe_keeps document r p = search (binds, h.frame.order)

  safely_keeps :
      (document : HandoffDocument) (r : UpdaterResultV2) (p : CandidatePreparation)
      → Keeps R (observe_safely env document r p)
  unfolding observe_safely
  safely_keeps document r p = search (binds, h.frame.order, observe_keeps)

  pub stop_keeps :
      (document : HandoffDocument) (r : UpdaterResultV2) (p : CandidatePreparation)
      → Keeps R (stop_candidate env document r p)
  unfolding stop_candidate
  stop_keeps document r p =
      search (binds, h.frame.order, safely_keeps, h.frame.stop, h.frame.wait) depth 12

  seen_keeps : (o : DockerRecoveryObservation) → Keeps R (remove_seen env o)
  unfolding remove_seen
  seen_keeps o = search (binds, h.frame.order, h.remove)

  pub remove_keeps :
      (document : HandoffDocument) (r : UpdaterResultV2) (p : CandidatePreparation)
      → Keeps R (remove_candidate env document r p)
  unfolding remove_candidate
  remove_keeps document r p = search (binds, h.frame.order, safely_keeps, seen_keeps) depth 12

  verified_keeps : (k : String) → Keeps R (restore_verified env k)
  unfolding restore_verified
  verified_keeps k = search (binds, h.frame.order, h.frame.check, h.frame.restore)

  pub snapshot_keeps : (k : String) → Keeps R (restore_snapshot env k)
  unfolding restore_snapshot
  snapshot_keeps k = search (binds, h.frame.order, verified_keeps) depth 12

  pub evidence_keeps : (k : String) → Keeps R (remove_candidate_evidence env k)
  unfolding remove_candidate_evidence
  evidence_keeps k = search (binds, h.frame.order, h.frame.unlink) depth 12

  source_keeps :
      (document : HandoffDocument) (r : UpdaterResultV2) → Keeps R (inspect_source env document r)
  unfolding inspect_source
  source_keeps document r = search (binds, h.frame.order)

  pub name_keeps :
      (document : HandoffDocument) (r : UpdaterResultV2) → Keeps R (restore_old_name env document r)
  unfolding restore_old_name
  name_keeps document r = search (binds, h.frame.order, source_keeps, h.frame.rename) depth 12

  pub policy_keeps :
      (document : HandoffDocument) (r : UpdaterResultV2)
      → Keeps R (restore_old_policy env document r)
  unfolding restore_old_policy
  policy_keeps document r = search (binds, h.frame.order, source_keeps, h.frame.policy) depth 12

  pub start_keeps :
      (document : HandoffDocument) (r : UpdaterResultV2) → Keeps R (start_old env document r)
  unfolding start_old
  start_keeps document r = search (binds, h.frame.order, source_keeps, h.frame.start) depth 12

  pub verify_keeps : (document : HandoffDocument) → Keeps R (verify_old env document)
  unfolding verify_old
  verify_keeps document = search (binds, h.frame.order, h.frame.verify_old)

  pub publish_keeps : Keeps R (publish env)
  unfolding publish
  publish_keeps = search (binds, h.frame.order)
