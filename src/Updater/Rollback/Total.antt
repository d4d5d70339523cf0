-- ===== src/Updater/Rollback/Total.antt =====
-- The loop of the way back ends within its fuel, whatever the engine and the verifier answer, and when
-- it ends without an error the journal says that the operation is rolled back.
use media_sync.Prelude.{
  ℕ, zero, suc, ◌+◌, ◌≤◌, String, ◌≡◌, refl, subst, true, Option, some, arith, inl, inr, Bool-cases,
}
use media_sync.Updates.Recovery.{rolled_back}
use media_sync.Updater.Errors.{UpdaterError, Result, ok, err}
use media_sync.Updater.Handoff.{HandoffDocument}
use media_sync.Updater.Checkpoint.{
  Checkpoint, rollback_begun, candidate_stopped, candidate_removed, snapshot_restored,
  candidate_evidence_removed, old_name_restored, old_policy_restored, old_started, old_verified,
  rollback_published, is_status, is_rollback,
}
use media_sync.Updater.Journal.Model.{UpdaterResultV2, is_valid}
use media_sync.Updater.Journal.{Entry, v1_entry, v2_entry, bad_entry, CheckpointArgs}
use media_sync.Updater.Journal.Advance.{is_status_eq}
use media_sync.Updater.Journal.Potential.{potential, potential-Advances, potential-le}
use media_sync.Updater.Candidate.{CandidatePreparation}
use media_sync.Updater.Machine.{Collaborators, World, lift, write_checkpoint}
use media_sync.Updater.Machine.Keeps.{
  bind_keeps, then_keeps, return_keeps, lift_keeps, ask_keeps, journal_ask_keeps,
}
use media_sync.Updater.Machine.Tracks.{
  Tracks, SameJournal, SameJournal-IsPreorder, SameJournal-IsFrame, Steps, bind-Steps, then-Steps,
  Steps-hook, write-Steps,
}
use media_sync.Updater.Forward.{plain}
use media_sync.Updater.Forward.Total.{outcome_cases}
use media_sync.Updater.Rollback.{checkpoint, round_at, rollback_loop}
use media_sync.Updater.Rollback.Rules.{with_reason}
use media_sync.Updater.Rollback.Framed.{
  IsWhole, stop_keeps, remove_keeps, snapshot_keeps, evidence_keeps, name_keeps, policy_keeps,
  start_keeps, verify_keeps, publish_keeps,
}

ruleset quiet = (
  bind_keeps, then_keeps, return_keeps, lift_keeps, ask_keeps, journal_ask_keeps,
  SameJournal-IsPreorder,
)

same_checkpoint : (e : Entry) (a : CheckpointArgs) → (with_reason e a).checkpoint ≡ a.checkpoint
unfolding with_reason
same_checkpoint (v1_entry r) a = refl
same_checkpoint (bad_entry m) a = refl
same_checkpoint (v2_entry r) a = ground arith

module _ {D : Type 0} (env : Collaborators D) where
  pub whole : IsWhole env SameJournal
  whole = record { frame = SameJournal-IsFrame env; remove = λ id w. refl }

  reasoned-Steps :
      (k : String) (r : UpdaterResultV2) (e : Entry) (a : CheckpointArgs)
      → Steps env.unicode k r (is_rollback a.checkpoint) (write_checkpoint env k (with_reason e a))
  reasoned-Steps k r e a =
      subst (λ c. Steps env.unicode k r (is_rollback c) (write_checkpoint env k (with_reason e a)))
        (same_checkpoint e a) (write-Steps env k r (with_reason e a))

  pub checkpoint-Steps :
      (k : String) (r : UpdaterResultV2) (a : CheckpointArgs)
      → Steps env.unicode k r (is_rollback a.checkpoint) (checkpoint env k a)
  unfolding checkpoint
  checkpoint-Steps k r a =
      search (then-Steps, bind-Steps, Steps-hook, reasoned-Steps, quiet) depth 12

  fails-Steps :
      (k : String) (r : UpdaterResultV2) (e : UpdaterError)
      → Steps env.unicode k r true (lift {D = D} (err e))
  fails-Steps k r e = record { step = λ w w' r' t h. cc }

  round-Steps :
      (document : HandoffDocument) (r : UpdaterResultV2) (p : CandidatePreparation) (c : Checkpoint)
      → Steps env.unicode document.operation_id r true (round_at env document r p c)
  unfolding round_at is_rollback
  round-Steps document r p rollback_begun = search (then-Steps, checkpoint-Steps, stop_keeps whole)
  round-Steps document r p candidate_stopped =
      search (then-Steps, checkpoint-Steps, remove_keeps whole)
  round-Steps document r p candidate_removed =
      search (then-Steps, checkpoint-Steps, snapshot_keeps whole)
  round-Steps document r p snapshot_restored =
      search (then-Steps, checkpoint-Steps, evidence_keeps whole)
  round-Steps document r p candidate_evidence_removed =
      search (then-Steps, checkpoint-Steps, name_keeps whole)
  round-Steps document r p old_name_restored =
      search (then-Steps, checkpoint-Steps, policy_keeps whole)
  round-Steps document r p old_policy_restored =
      search (then-Steps, checkpoint-Steps, start_keeps whole)
  round-Steps document r p old_started = search (then-Steps, checkpoint-Steps, verify_keeps whole)
  round-Steps document r p old_verified = search (then-Steps, checkpoint-Steps, publish_keeps whole)
  round-Steps document r p rollback_published =
      checkpoint-Steps document.operation_id r (plain rolled_back rollback_published)
  round-Steps document r p _ = fails-Steps document.operation_id r _

rollback_potential : (r : UpdaterResultV2) → is_rollback r.checkpoint ≡ true → 10 ≤ potential r
unfolding potential
rollback_potential r e = ground arith

-- The loop ended in `v` with the operation rolled back, or it raised.
pub data RollbackEnds {D : Type 0} (k : String)
    : Result (Option UpdaterResultV2) × World D → Type 0 where
  raised : (e : UpdaterError) (v : World D) → RollbackEnds k (err e, v)
  restored :
      (r : UpdaterResultV2) (v : World D)
      → Tracks k v r
      → r.status ≡ rolled_back
      → RollbackEnds k (ok (some r), v)

module _ {D : Type 0} (env : Collaborators D) (document : HandoffDocument)
    (p : CandidatePreparation) where
  rounds_end :
      (n : ℕ) (r : UpdaterResultV2) (w : World D)
      → Tracks document.operation_id w r
      → is_valid env.unicode r ≡ true
      → 21 ≤ n + potential r
      → RollbackEnds document.operation_id (rollback_loop env n document p r w)
  unfolding rollback_loop
  rounds_end zero r w t f b = absurd (omega (arith, potential-le env.unicode r f))
  rounds_end (suc n) r w t f b = elim (Bool-cases (is_status r.status rolled_back)) [
    | inl e ↦ rw (e, rollback_loop) (restored r w t (is_status_eq r.status rolled_back e))
    | inr e ↦ elim (outcome_cases (round_at env document r p r.checkpoint w)) [
      | inl (x, v, h) ↦ rw (e, h, rollback_loop) (raised x v)
      | inr (r', v, h) ↦
          let (s, f') = (round-Steps env document r p r.checkpoint).step w v r' t h in
          let grows = potential-Advances env.unicode r r' s.valid_before s.valid s.advances in
          let rest = rounds_end n r' v s.tracks s.valid (omega arith) in
          rw (e, h, rollback_loop) rest
    ]
  ]

  -- From any checkpoint of the way back, eleven rounds of the loop are enough: it raises, or it ends
  -- with the operation rolled back in the journal.
  pub rollback_loop-Ends :
      (r : UpdaterResultV2) (w : World D)
      → Tracks document.operation_id w r
      → is_valid env.unicode r ≡ true
      → is_rollback r.checkpoint ≡ true
      → RollbackEnds document.operation_id (rollback_loop env 11 document p r w)
  rollback_loop-Ends r w t v back = rounds_end 11 r w t v (omega (arith, rollback_potential r back))
