-- ===== src/Updater/Rollback/Reason.antt =====
-- The reason of the update's failure, which the first checkpoint of a rollback records, stays in the
-- journal up to the last one.
use media_sync.Prelude.{
  ℕ, zero, suc, String, ◌≡◌, sym, ap, ◌∙◌, subst, true, Option, some, inl, inr, Bool-cases, arith,
}
use media_sync.Updates.Recovery.{UpdaterStatus, rolled_back}
use media_sync.Updater.Errors.{UpdaterError, Result, ok, err}
use media_sync.Updater.Handoff.{HandoffDocument}
use media_sync.Updater.Checkpoint.{
  Checkpoint, rollback_begun, candidate_stopped, candidate_removed, snapshot_restored,
  candidate_evidence_removed, old_name_restored, old_policy_restored, old_started, old_verified,
  rollback_published, is_status,
}
use media_sync.Updater.Journal.Model.{UpdaterResultV2}
use media_sync.Updater.Journal.{
  Entry, v2_entry, Directory, CheckpointArgs, read, checkpoint_v2, advanced,
}
use media_sync.Updater.Journal.Inversion.{read_v2_inv, read_found, checkpoint_v2_inv}
use media_sync.Updater.Candidate.{CandidatePreparation}
use media_sync.Updater.Machine.{
  Collaborators, World, M, ◌>>=◌, ◌>>◌, lift, journal_ask, write_checkpoint,
}
use media_sync.Updater.Machine.Keeps.{Keeps}
use media_sync.Updater.Machine.Tracks.{
  Tracks, SameJournal, bind_done, journal_call_done, same_entry, write_same,
}
use media_sync.Updater.Machine.Ensures.{
  Ensures, bind_ensures, then_ensures, return_ensures, pass_ensures,
}
use media_sync.Updater.Forward.{plain}
use media_sync.Updater.Forward.Outcome.{answer_inv}
use media_sync.Updater.Rollback.{checkpoint, round_at, rollback_loop}
use media_sync.Updater.Rollback.Rules.{with_reason}
use media_sync.Updater.Rollback.Framed.{
  stop_keeps, remove_keeps, snapshot_keeps, evidence_keeps, name_keeps, policy_keeps, start_keeps,
  verify_keeps, publish_keeps,
}
use media_sync.Updater.Rollback.Total.{whole}

-- A result on the way back, with this code and message.
pub record IsReasoned (code message : Option String) (r : UpdaterResultV2) : Type 0 where
  pub back : r.rollback_started ≡ true
  pub error : r.error_code ≡ code
  pub text : r.public_error_message ≡ message

abbrev pub Reason : {D : Type 0} → String → Option String → Option String → World D → Type 0
Reason k code message w = (r : UpdaterResultV2) × Tracks k w r × IsReasoned code message r

-- What a plain checkpoint writes over a result with a reason.
IsReasoned-advanced :
    (code message : Option String) (r : UpdaterResultV2) (s : UpdaterStatus) (c : Checkpoint)
    (now : ℕ)
    → IsReasoned code message r
    → IsReasoned code message (advanced r (with_reason (v2_entry r) (plain s c)) now)
unfolding advanced with_reason
IsReasoned-advanced code message r s c now h = ground (arith, h.back, h.error, h.text)

entry_same : (e : Entry) (r : UpdaterResultV2) → some e ≡ some (v2_entry r) → e ≡ v2_entry r
entry_same e r h = cc

id_same :
    (x cur : UpdaterResultV2) (a : CheckpointArgs) (now : ℕ)
    → x ≡ advanced cur a now
    → x.operation_id ≡ cur.operation_id
unfolding advanced
id_same x cur a now h = ap (λ (y : UpdaterResultV2). y.operation_id) h

module _ {D : Type 0} (env : Collaborators D) (k : String) (code message : Option String) where
  write-Reason :
      (s : UpdaterStatus) (c : Checkpoint) (e : Entry)
      → Ensures
          (λ w. Reason k code message w × (read env.unicode k w.journal ≡ ok e))
          (write_checkpoint env k (with_reason e (plain s c)))
          (λ _. Reason k code message)
  unfolding write_checkpoint
  write-Reason s c e = record {
    run = λ w v x p h.
        let a = with_reason e (plain s c) in
        let (d, f, after) =
          journal_call_done (checkpoint_v2 env.unicode k a (env.now w.outside)) w h in
        let (cur, found, passed, same, wrote) =
          checkpoint_v2_inv env.unicode w.journal k a (env.now w.outside) f in
        let (there, valid, named) = read_v2_inv env.unicode k w.journal cur found in
        let (r, t, reason) = p.0 in
        let is : cur ≡ r = same_entry cur r (sym there ∙ t) in
        let entry : e ≡ v2_entry r =
          entry_same e r (sym (read_found env.unicode k w.journal e p.1) ∙ t) in
        let result : x ≡ advanced r (with_reason (v2_entry r) (plain s c)) (env.now w.outside) =
          same
          ∙ ap (λ y. advanced y a (env.now w.outside)) is
          ∙ ap (λ y. advanced r (with_reason y (plain s c)) (env.now w.outside)) entry in
        (
          x,
          ap (λ (y : World D). y.journal k) after
              ∙ ap (λ (y : Directory). y k) wrote.written
              ∙ write_same k x.operation_id (v2_entry x) w.journal
                  (id_same x cur a (env.now w.outside) same ∙ named),
          subst (IsReasoned code message) (sym result)
              (IsReasoned-advanced code message r s c (env.now w.outside) reason),
        );
  }

  checkpoint-Reason :
      (s : UpdaterStatus) (c : Checkpoint)
      → Ensures (Reason k code message) (checkpoint env k (plain s c)) (λ _. Reason k code message)
  unfolding checkpoint
  checkpoint-Reason s c = then_ensures (Reason k code message) pass_ensures (
      bind_ensures (λ e w. Reason k code message w × (read env.unicode k w.journal ≡ ok e))
        {m = journal_ask (read env.unicode k)}
        (record {
          run = λ w v e p h.
              let (found, same) = answer_inv (read env.unicode k w.journal) w v e h in
              subst (λ y. Reason k code message y × (read env.unicode k y.journal ≡ ok e))
                (sym same) (p, found);
        })
        λ e.
          bind_ensures (λ _. Reason k code message) (write-Reason s c e)
            λ r. then_ensures (Reason k code message) pass_ensures (return_ensures λ w p. p))

  effect_then :
      (m : M D (Unit {0})) (n : M D UpdaterResultV2)
      → Keeps SameJournal m
      → Ensures (Reason k code message) n (λ _. Reason k code message)
      → Ensures (Reason k code message) (m >> n) (λ _. Reason k code message)
  effect_then m n h g =
      then_ensures (Reason k code message)
        (record {
          run = λ w v a p e.
              let same : v.journal ≡ w.journal =
                sym (ap (λ (q : Result _ × World D). q.1.journal) e) ∙ h w in
              (p.0, ap (λ (d : Directory). d k) same ∙ p.1, p.2);
        })
        g

  fails-Reason :
      (e : UpdaterError)
      → Ensures
          (Reason k code message)
          (lift {D = D} {A = UpdaterResultV2} (err e))
          (λ _. Reason k code message)
  fails-Reason e = record { run = λ w v a p h. cc }

module _ {D : Type 0} (env : Collaborators D) (code message : Option String) where
  round-Reason :
      (document : HandoffDocument) (r : UpdaterResultV2) (p : CandidatePreparation) (c : Checkpoint)
      → Ensures
          (Reason document.operation_id code message)
          (round_at env document r p c)
          (λ _. Reason document.operation_id code message)
  unfolding round_at
  round-Reason document r p rollback_begun =
      search (effect_then, checkpoint-Reason, stop_keeps (whole env))
  round-Reason document r p candidate_stopped =
      search (effect_then, checkpoint-Reason, remove_keeps (whole env))
  round-Reason document r p candidate_removed =
      search (effect_then, checkpoint-Reason, snapshot_keeps (whole env))
  round-Reason document r p snapshot_restored =
      search (effect_then, checkpoint-Reason, evidence_keeps (whole env))
  round-Reason document r p candidate_evidence_removed =
      search (effect_then, checkpoint-Reason, name_keeps (whole env))
  round-Reason document r p old_name_restored =
      search (effect_then, checkpoint-Reason, policy_keeps (whole env))
  round-Reason document r p old_policy_restored =
      search (effect_then, checkpoint-Reason, start_keeps (whole env))
  round-Reason document r p old_started =
      search (effect_then, checkpoint-Reason, verify_keeps (whole env))
  round-Reason document r p old_verified =
      search (effect_then, checkpoint-Reason, publish_keeps (whole env))
  round-Reason document r p rollback_published =
      checkpoint-Reason env document.operation_id code message rolled_back rollback_published
  round-Reason document r p _ = fails-Reason env document.operation_id code message _

  -- Whatever rounds of a rollback end without an error, the journal then has the code and the message
  -- that it had before them.
  pub rollback_loop-Reason :
      (document : HandoffDocument) (p : CandidatePreparation) (n : ℕ) (r : UpdaterResultV2)
      (w v : World D) (last : Option UpdaterResultV2)
      → Reason document.operation_id code message w
      → rollback_loop env n document p r w ≡ (ok last, v)
      → Reason document.operation_id code message v
  unfolding rollback_loop
  rollback_loop-Reason document p zero r w v last q h =
      let same : w ≡ v = cc in subst (Reason document.operation_id code message) same q
  rollback_loop-Reason document p (suc n) r w v last q h =
      elim (Bool-cases (is_status r.status rolled_back)) [
        | inl e ↦
            let same : w ≡ v = (let h' = (rw (rollback_loop, e) at h) in cc) in
            subst (Reason document.operation_id code message) same q
        | inr e ↦
            let h' : (round_at env document r p r.checkpoint >>= λ next.
            rollback_loop env n document p next)
                  w
                ≡ (ok last, v) =
              (rw (rollback_loop, e) at h) in
            let (a, x, e₁, e₂) =
              bind_done (round_at env document r p r.checkpoint)
                (λ next. rollback_loop env n document p next) w h' in
            rollback_loop-Reason document p n a x v last
              ((round-Reason document r p r.checkpoint).run w x a q e₁) e₂
      ]
