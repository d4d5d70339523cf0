-- ===== src/Updater/Forward/Outcome.antt =====
-- What a run of `UpdaterForwardV2.execute` (`services/updater_forward_v2.py`) leaves behind.
use media_sync.Prelude.{
  String, ◌≡◌, refl, ap, ◌∙◌, subst, true, false, ◌||◌, Option, some, is_some, arith,
}
use media_sync.Updates.Recovery.{success}
use media_sync.Updater.Text.{Unicode}
use media_sync.Updater.Errors.{Result, ok, err}
use media_sync.Updater.Handoff.{HandoffDocument}
use media_sync.Updater.Checkpoint.{is_rollback}
use media_sync.Updater.Journal.Model.{UpdaterResultV2, is_valid}
use media_sync.Updater.Journal.{
  Entry, v1_entry, v2_entry, bad_entry, Directory, read, initial_v2, start_v2,
}
use media_sync.Updater.Journal.Inversion.{read_inv, start_v2_inv}
use media_sync.Updater.Journal.Potential.{valid_cases}
use media_sync.Updater.Machine.{Collaborators, World, ◌>>=◌, ◌>>◌, return, journal_ask, write_start}
use media_sync.Updater.Machine.Tracks.{Tracks, journal_call_done, write_same}
use media_sync.Updater.Machine.Ensures.{
  Ensures, bind_ensures, then_ensures, return_ensures, lift_ensures, pass_ensures, guard_ensures,
  if_ensures, read_handoff_ensures,
}
use media_sync.Updater.Forward.{
  start_result, load_result, expect_forward, load_or_start, is_off_path, validate_resumable,
  forward_loop, forward_rounds, run_loop,
}
use media_sync.Updater.Forward.Total.{Ends, raised, succeeded, forward_loop-Ends}

abbrev pub Anything : {D : Type 0} → World D → Type 0
Anything w = Unit

-- The result is in the journal, and on the forward path.
pub record OnPath {D : Type 0} (u : Unicode) (k : String) (r : UpdaterResultV2) (w : World D)
    : Type 0 where
  pub tracks : Tracks k w r
  pub valid : is_valid u r ≡ true

expect_forward_inv : (e : Entry) (r : UpdaterResultV2) → expect_forward e ≡ ok r → e ≡ v2_entry r
unfolding expect_forward
expect_forward_inv (v1_entry s) r h = cc
expect_forward_inv (v2_entry s) r h = cc
expect_forward_inv (bad_entry m) r h = cc

pub answer_inv :
    {A D : Type 0} (q : Result A) (w v : World D) (a : A)
    → ◌≡◌ {A = Result A × World D} (q, w) (ok a, v)
    → (q ≡ ok a) × (v ≡ w)
answer_inv q w v a h = (cc, cc)

-- On the path, with the checkpoint not on the way back.
abbrev Forward : {D : Type 0} → Unicode → String → UpdaterResultV2 → World D → Type 0
Forward u k r w = Tracks k w r × (is_rollback r.checkpoint ≡ false)

-- The loop ended with success, in the journal.
abbrev pub Succeeded : {D : Type 0} → String → Option UpdaterResultV2 → World D → Type 0
Succeeded k last v = (x : UpdaterResultV2) × (last ≡ some x) × Tracks k v x × (x.status ≡ success)

Verdict : {D : Type 0} → String → Result (Option UpdaterResultV2) × World D → Type 0
Verdict k (ok last, v) = Succeeded k last v
Verdict k (err e, v) = Unit

Ends-Verdict :
    {D : Type 0} {k : String} {p : Result (Option UpdaterResultV2) × World D}
    → Ends k p
    → Verdict k p
unfolding Verdict
Ends-Verdict (raised e v) = tt
Ends-Verdict (succeeded r v t s f) = (r, refl, t, s)

module _ {D : Type 0} (env : Collaborators D) where
  load_result_ensures : (k : String) → Ensures Anything (load_result env k) (OnPath env.unicode k)
  unfolding load_result
  load_result_ensures k =
      bind_ensures (λ (e : Entry) w. read env.unicode k w.journal ≡ ok e)
        (record {
          run = λ w v a p e.
              let (found, same) = answer_inv (read env.unicode k w.journal) w v a e in
              ap (λ (x : World D). read env.unicode k x.journal) same ∙ found;
        })
        (λ e. lift_ensures λ r w h p.
          let (there, valid, named) =
            read_inv env.unicode k w.journal r (p ∙ ap ok (expect_forward_inv e r h)) in
          record { tracks = there; valid = valid })

  write_start_ensures :
      (document : HandoffDocument)
      → Ensures Anything (write_start env document) (OnPath env.unicode document.operation_id)
  unfolding write_start initial_v2
  write_start_ensures document = record {
    run = λ w v r p e.
        let (d, h, after) =
          journal_call_done
            (start_v2 env.unicode document env.coordinator_container_id (env.now w.outside)) w e in
        let (free, same, wrote) =
          start_v2_inv env.unicode w.journal document env.coordinator_container_id
            (env.now w.outside) h in
        record {
          tracks =
              ap (λ (x : World D). x.journal document.operation_id) after
              ∙ ap (λ (x : Directory). x document.operation_id) wrote.written
              ∙ write_same document.operation_id r.operation_id (v2_entry r) w.journal
                  (ap (λ (x : UpdaterResultV2). x.operation_id) same);
          valid = wrote.valid;
        };
  }

  start_result_ensures :
      (document : HandoffDocument)
      → Ensures Anything (start_result env document) (OnPath env.unicode document.operation_id)
  unfolding start_result
  start_result_ensures document = then_ensures Anything pass_ensures (
      bind_ensures (OnPath env.unicode document.operation_id) (write_start_ensures document) λ r.
        then_ensures (OnPath env.unicode document.operation_id r) pass_ensures
          (return_ensures λ w p. p))

  load_or_start_ensures :
      (document : HandoffDocument)
      → Ensures Anything (load_or_start env document) (OnPath env.unicode document.operation_id)
  unfolding load_or_start
  load_or_start_ensures document =
      bind_ensures (λ _. Anything) {m = journal_ask (λ d. ok (is_some (d document.operation_id)))}
        (record { run = λ w v a p e. tt })
        λ b.
          if_ensures b (λ e. load_result_ensures document.operation_id)
            (λ e. start_result_ensures document)

  resumable_ensures :
      (k : String) (r : UpdaterResultV2)
      → Ensures (OnPath env.unicode k r) (validate_resumable env r) (λ _. Forward env.unicode k r)
  unfolding validate_resumable
  resumable_ensures k r = then_ensures (OnPath env.unicode k r) pass_ensures (
      guard_ensures (r.rollback_started || is_off_path r.status) _
        λ w e p. (p.tracks, ground (arith, valid_cases env.unicode r p.valid)))

  loop_ensures :
      (document : HandoffDocument) (r : UpdaterResultV2)
      → Ensures
          (Forward env.unicode document.operation_id r)
          (forward_loop env forward_rounds document r)
          (Succeeded document.operation_id)
  unfolding Verdict
  loop_ensures document r = record {
    run = λ w v last p e.
        subst (Verdict document.operation_id) e
          (Ends-Verdict (forward_loop-Ends env document r w p.0 p.1));
  }

  after_load_ensures :
      (document : HandoffDocument) (r : UpdaterResultV2)
      → Ensures {A = HandoffDocument × Option UpdaterResultV2}
          (OnPath env.unicode document.operation_id r)
          (validate_resumable env r
            >> (forward_loop env forward_rounds document r >>= λ last. return (document, last)))
          (λ p v. (p.0 ≡ document) × Succeeded document.operation_id p.1 v)
  after_load_ensures document r =
      then_ensures (Forward env.unicode document.operation_id r)
        (resumable_ensures document.operation_id r)
        (bind_ensures (Succeeded document.operation_id) (loop_ensures document r)
          λ last. return_ensures λ w p. (refl, p))

  pub run_loop_ensures :
      (k : String)
      → Ensures Anything (run_loop env k) (λ p v. (p.0.operation_id ≡ k) × Succeeded k p.1 v)
  unfolding run_loop
  run_loop_ensures k =
      bind_ensures (λ (document : HandoffDocument) _. document.operation_id ≡ k)
        (record { run = λ w v a p e. ((read_handoff_ensures env k Anything).run w v a p e).1 })
        λ document. record {
          run = λ w v p same e.
              let (q, s) = (rest document).run w v p tt e in
              subst (λ key. (p.0.operation_id ≡ key) × Succeeded key p.1 v) same
                (ap (λ (x : HandoffDocument). x.operation_id) q, s);
        }
    where
      rest :
          (document : HandoffDocument)
          → Ensures {A = HandoffDocument × Option UpdaterResultV2} Anything
              (load_or_start env document >>= λ r.
                (validate_resumable env r
                  >> (forward_loop env forward_rounds document r >>= λ last.
                      return (document, last))))
              (λ p v. (p.0 ≡ document) × Succeeded document.operation_id p.1 v)
      rest document =
          bind_ensures (OnPath env.unicode document.operation_id) (load_or_start_ensures document)
            (after_load_ensures document)
