-- ===== src/Updater/Machine/Keeps.antt =====
-- Relations between the world before a computation of an executor and the world after it, whether it
-- ends with a result or with an error.
use media_sync.Prelude.{ℕ, String, Bool, true, false, if◌then◌else◌}
use media_sync.Updater.Errors.{Result, ok, err}
use media_sync.Updater.Handoff.{RestartPolicy, HandoffDocument}
use media_sync.Updater.Docker.{CreateConfig}
use media_sync.Updater.Journal.{Directory}
use media_sync.Updater.Candidate.{CandidatePreparation}
use media_sync.Updater.Machine.{
  Collaborators, World, M, proceed, ◌>>=◌, ◌>>◌, return, lift, ask, call, journal_ask,
  prepare_candidate,
}

module _ {D : Type 0} (R : World D → World D → Type 0) where
  abbrev pub Keeps : {A : Type 0} → M D A → Type 0
  Keeps m = (w : World D) → R w (m w).1

-- A relation that holds of a world and itself, and of two steps when it holds of each.
pub record IsPreorder {D : Type 0} (R : World D → World D → Type 0) : Type 0 where
  pub stay : (w : World D) → R w w
  pub chain : (v w x : World D) → R v w → R w x → R v x

module _ {D : Type 0} {R : World D → World D → Type 0} (o : IsPreorder R) where
  proceed_keeps :
      {A B : Type 0} (v : World D) (p : Result A × World D) (f : A → M D B)
      → R v p.1
      → ((a : A) → Keeps R (f a))
      → R v (proceed p f).1
  proceed_keeps v (ok a, w) f h k = o.chain v w _ h (k a w)
  proceed_keeps v (err e, w) f h k = h

  pub bind_keeps :
      {A B : Type 0} (m : M D A) (f : A → M D B)
      → Keeps R m
      → ((a : A) → Keeps R (f a))
      → Keeps R (m >>= f)
  bind_keeps m f h k w = proceed_keeps w (m w) f (h w) k

  pub then_keeps :
      {B : Type 0} (m : M D (Unit {0})) (k : M D B) → Keeps R m → Keeps R k → Keeps R (m >> k)
  then_keeps m k h g w = proceed_keeps w (m w) (λ _. k) (h w) (λ _. g)

  pub return_keeps : {A : Type 0} (a : A) → Keeps R (return a)
  return_keeps a w = o.stay w

  pub lift_keeps : {A : Type 0} (r : Result A) → Keeps R (lift r)
  lift_keeps r w = o.stay w

  pub ask_keeps : {A : Type 0} (q : D → Result A) → Keeps R (ask q)
  ask_keeps q w = o.stay w

  pub journal_ask_keeps : {A : Type 0} (q : Directory → Result A) → Keeps R (journal_ask q)
  journal_ask_keeps q w = o.stay w

  pub if_keeps :
      {A : Type 0} (b : Bool) (m n : M D A) → Keeps R m → Keeps R n → Keeps R (if b then m else n)
  if_keeps true m n h k = h
  if_keeps false m n h k = k

-- A relation that every effect but the removal of a container keeps.
pub record IsFrame {D : Type 0} (env : Collaborators D) (R : World D → World D → Type 0)
    : Type 0 where
  pub order : IsPreorder R
  pub policy :
      (id : String) (p : RestartPolicy) → Keeps R (call (env.engine.update_restart_policy id p))
  pub stop : (id : String) (n : ℕ) → Keeps R (call (env.engine.stop_container id n))
  pub wait : (id : String) → Keeps R (call (env.engine.wait_container id))
  pub rename : (id name : String) → Keeps R (call (env.engine.rename_container id name))
  pub create :
      (name : String) (c : CreateConfig) → Keeps R (call (env.engine.create_container name c))
  pub start : (id : String) → Keeps R (call (env.engine.start_container id))
  pub snapshot : (k : String) → Keeps R (call (env.snapshots.create k))
  pub check : (k : String) → Keeps R (call (env.snapshots.verify k))
  pub restore : (k : String) → Keeps R (call (env.snapshots.restore k))
  pub verify :
      (document : HandoffDocument) (p : CandidatePreparation) (id : String)
      → Keeps R (call (env.verify_candidate document p id))
  pub verify_old :
      (document : HandoffDocument) (id : String) → Keeps R (call (env.verify_previous document id))
  pub commit : (k : String) → Keeps R (call (env.wait_commit k))
  pub unlink : (k : String) → Keeps R (call (env.unlink_evidence k))
  pub prepare : (document : HandoffDocument) → Keeps R (prepare_candidate env document)
