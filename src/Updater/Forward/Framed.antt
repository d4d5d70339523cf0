-- ===== src/Updater/Forward/Framed.antt =====
-- Every effect of the forward path keeps a relation that the single calls keep.
use media_sync.Prelude.{String, Bool}
use media_sync.Updater.Handoff.{HandoffDocument}
use media_sync.Updater.Docker.{Container}
use media_sync.Updater.Journal.Model.{UpdaterResultV2}
use media_sync.Updater.Candidate.{CandidatePreparation}
use media_sync.Updater.Machine.{Collaborators, World, observe_containers}
use media_sync.Updater.Machine.Keeps.{
  Keeps, IsFrame, bind_keeps, then_keeps, return_keeps, lift_keeps, ask_keeps, if_keeps,
}
use media_sync.Updater.Forward.Effects.{
  require_source_identity, fence_old_restart, stop_old, ensure_snapshot, rename_old,
  ensure_candidate, start_candidate, require_candidate_identity,
}

ruleset binds = (bind_keeps, then_keeps, return_keeps, lift_keeps, ask_keeps, if_keeps)

module _ {D : Type 0} {env : Collaborators D} {R : World D → World D → Type 0}
    (h : IsFrame env R) where
  require_keeps :
      (document : HandoffDocument) (c : Container) (previous : Bool)
      → Keeps R (require_source_identity env document c previous)
  unfolding require_source_identity
  require_keeps document c previous = search (binds, h.order)

  pub fence_keeps : (document : HandoffDocument) → Keeps R (fence_old_restart env document)
  unfolding fence_old_restart
  fence_keeps document = search (binds, h.order, require_keeps, h.policy) depth 12

  pub stop_keeps : (document : HandoffDocument) → Keeps R (stop_old env document)
  unfolding stop_old
  stop_keeps document = search (binds, h.order, require_keeps, h.stop, h.wait) depth 12

  pub snapshot_keeps : (k : String) → Keeps R (ensure_snapshot env k)
  unfolding ensure_snapshot
  snapshot_keeps k = search (binds, h.order, h.snapshot, h.check) depth 12

  pub rename_keeps : (document : HandoffDocument) → Keeps R (rename_old env document)
  unfolding rename_old
  rename_keeps document = search (binds, h.order, require_keeps, h.rename) depth 12

  observe_keeps :
      (document : HandoffDocument) (r : UpdaterResultV2) (p : CandidatePreparation)
      → Keeps R (observe_containers env document r p)
  unfolding observe_containers
  observe_keeps document r p = search (binds, h.order)

  pub create_keeps :
      (document : HandoffDocument) (r : UpdaterResultV2) (p : CandidatePreparation)
      → Keeps R (ensure_candidate env document r p)
  unfolding ensure_candidate
  create_keeps document r p = search (binds, h.order, observe_keeps, h.create) depth 12

  pub start_keeps : (id : String) → Keeps R (start_candidate env id)
  unfolding start_candidate
  start_keeps id = search (binds, h.order, h.start) depth 12

  pub identity_keeps :
      (document : HandoffDocument) (r : UpdaterResultV2) (p : CandidatePreparation)
      → Keeps R (require_candidate_identity env document r p)
  unfolding require_candidate_identity
  identity_keeps document r p = search (binds, h.order, observe_keeps) depth 12
