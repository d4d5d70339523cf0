-- ===== src/Updater/Forward/Total.antt =====
-- The loop of the forward path ends within its fuel, whatever the engine and the other collaborators
-- answer, and when it ends without an error the journal says so.
use media_sync.Prelude.{
  ℕ, zero, suc, ◌+◌, ◌≤◌, String, ◌≡◌, refl, false, Option, some, arith, ◌⊎◌, inl, inr, Bool-cases,
}
use media_sync.Updates.Recovery.{UpdaterStatus, success}
use media_sync.Updater.Errors.{UpdaterError, Result, ok, err}
use media_sync.Updater.Handoff.{HandoffDocument}
use media_sync.Updater.Checkpoint.{is_status, is_rollback, index-le}
use media_sync.Updater.Journal.Model.{UpdaterResultV2}
use media_sync.Updater.Journal.Advance.{is_status_eq}
use media_sync.Updater.Journal.Potential.{potential, extra, potential-Advances}
use media_sync.Updater.Machine.{Collaborators, World}
use media_sync.Updater.Machine.Tracks.{Tracks}
use media_sync.Updater.Forward.{round, forward_loop, forward_rounds}
use media_sync.Updater.Forward.Steps.{round-Steps}

forward_extra : (s : UpdaterStatus) → extra s ≤ 2
unfolding extra
forward_extra s = ground arith

forward_potential : (r : UpdaterResultV2) → is_rollback r.checkpoint ≡ false → potential r ≤ 11
unfolding potential
forward_potential r e = ground (arith, index-le r.checkpoint, forward_extra r.status)

-- How a computation ends.
pub outcome_cases :
    {D A : Type 0} (p : Result A × World D)
    → ((e : UpdaterError) × (v : World D) × (p ≡ (err e, v)))
      ⊎ ((a : A) × (v : World D) × (p ≡ (ok a, v)))
outcome_cases (ok a, v) = inr (a, v, refl)
outcome_cases (err e, v) = inl (e, v, refl)

-- The loop ended in `v` with the result `r`, or it raised.
pub data Ends {D : Type 0} (k : String) : Result (Option UpdaterResultV2) × World D → Type 0 where
  raised : (e : UpdaterError) (v : World D) → Ends k (err e, v)
  succeeded :
      (r : UpdaterResultV2) (v : World D)
      → Tracks k v r
      → r.status ≡ success
      → is_rollback r.checkpoint ≡ false
      → Ends k (ok (some r), v)

module _ {D : Type 0} (env : Collaborators D) (document : HandoffDocument) where
  loop-Ends :
      (n : ℕ) (r : UpdaterResultV2) (w : World D)
      → Tracks document.operation_id w r
      → is_rollback r.checkpoint ≡ false
      → 12 ≤ n + potential r
      → Ends document.operation_id (forward_loop env n document r w)
  unfolding forward_loop
  loop-Ends zero r w t f b = absurd (omega (arith, forward_potential r f))
  loop-Ends (suc n) r w t f b = elim (Bool-cases (is_status r.status success)) [
    | inl e ↦ rw (e, forward_loop) (succeeded r w t (is_status_eq r.status success e) f)
    | inr e ↦ elim (outcome_cases (round env document r w)) [
      | inl (x, v, h) ↦ rw (e, h, forward_loop) (raised x v)
      | inr (r', v, h) ↦
          let (s, f') = (round-Steps env document r r.checkpoint).step w v r' t h in
          let grows = potential-Advances env.unicode r r' s.valid_before s.valid s.advances in
          let rest = loop-Ends n r' v s.tracks f' (omega arith) in rw (e, h, forward_loop) rest
    ]
  ]

  -- From any checkpoint of the forward path, twelve rounds of the loop are enough: it raises, or it
  -- ends with the operation's success in the journal.
  pub forward_loop-Ends :
      (r : UpdaterResultV2) (w : World D)
      → Tracks document.operation_id w r
      → is_rollback r.checkpoint ≡ false
      → Ends document.operation_id (forward_loop env forward_rounds document r w)
  forward_loop-Ends r w t f = loop-Ends forward_rounds r w t f (omega arith)
