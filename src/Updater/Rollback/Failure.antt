-- ===== src/Updater/Rollback/Failure.antt =====
-- What `_record_rollback_failed` of `services/updater_rollback_v2.py` leaves in the journal.
use media_sync.Prelude.{
  ℕ, String, ◌≡◌, refl, sym, ap, ◌∙◌, subst, inl, inr, Bool-cases, true, false, Option, none, some,
  arith, ==-refl, text_eq, text_eq_refl,
}
use media_sync.Updates.Recovery.{rolling_back, rollback_failed}
use media_sync.Updater.Text.{Unicode, codes, is_operation_id}
use media_sync.Updater.Errors.{Result, ok, err, Result-cases}
use media_sync.Updater.Checkpoint.{
  Checkpoint, is_status, is_terminal, can_transition, is_rollback, allows_forward, allows_rollback,
  index, status_code, is_status_refl,
}
use media_sync.Updater.Journal.Model.{
  UpdaterResultV2, is_valid, is_error_code, has_valid_fields, has_valid_checkpoint, same_bool,
  is_public_message, validate_public_error,
}
use media_sync.Updater.Journal.{
  Entry, v1_entry, v2_entry, bad_entry, Directory, CheckpointArgs, advanced, read, read_entry,
  read_v2, validate_operation_id, check_advance, validate_checkpoint_progress, checkpoint_v2, write,
  differs,
}
use media_sync.Updater.Journal.Advance.{is_status_eq}
use media_sync.Updater.Journal.Inversion.{read_found}
use media_sync.Updater.Journal.Sound.{Sound, IsSoundEntry}
use media_sync.Updater.Machine.{Collaborators, World, write_checkpoint}
use media_sync.Updater.Machine.Tracks.{Tracks, same_entry, write_same}
use media_sync.Updater.Forward.{plain}
use media_sync.Updater.Rollback.{record_rollback_failed, mark_failed}

-- The arguments with which the failure is recorded.
abbrev failure : Checkpoint → CheckpointArgs
failure checkpoint = record (plain rollback_failed checkpoint) {
  error_code = some "automatic_rollback_failed";
  public_error_message = some "自动回滚未能安全完成，需要人工恢复";
}

valid_operation :
    (u : Unicode) (r : UpdaterResultV2)
    → is_valid u r ≡ true
    → is_operation_id (codes r.operation_id) ≡ true
unfolding is_valid has_valid_fields
valid_operation u r v = ground arith

read_tracked :
    (u : Unicode) (k : String) (r : UpdaterResultV2) (d : Directory)
    → d k ≡ some (v2_entry r)
    → is_valid u r ≡ true
    → r.operation_id ≡ k
    → read u k d ≡ ok (v2_entry r)
unfolding read read_entry validate_operation_id
read_tracked u k r d t v named =
    let id : is_operation_id (codes k) ≡ true =
      ap (λ x. is_operation_id (codes x)) (sym named) ∙ valid_operation u r v in
    let same : text_eq r.operation_id k ≡ true = ap (λ x. text_eq x k) named ∙ text_eq_refl k in
    rw (id, t, v, same)

back_of :
    (u : Unicode) (r : UpdaterResultV2)
    → is_valid u r ≡ true
    → r.status ≡ rolling_back
    → (is_rollback r.checkpoint ≡ true) × (r.rollback_started ≡ true)
unfolding is_valid has_valid_checkpoint same_bool allows_forward
back_of u r v s = ground arith

differs-none : (o : Option String) → differs o none ≡ false
differs-none none = refl
differs-none (some text) = refl

failure-passes :
    (u : Unicode) (r : UpdaterResultV2)
    → is_valid u r ≡ true
    → r.status ≡ rolling_back
    → is_error_code u (some "automatic_rollback_failed") ≡ true
    → check_advance u r (failure r.checkpoint) ≡ ok tt
unfolding check_advance validate_checkpoint_progress is_terminal can_transition is_status
    status_code same_bool validate_public_error is_public_message
failure-passes u r v s e =
    let (b, b') = back_of u r v s in
    rw (
      s,
      b,
      b',
      e,
      differs-none r.candidate_token_hash,
      differs-none r.candidate_container_id,
      ==-refl (index r.checkpoint),
    )

failure-valid :
    (u : Unicode) (r : UpdaterResultV2) (now : ℕ)
    → is_valid u r ≡ true
    → r.status ≡ rolling_back
    → is_error_code u (some "automatic_rollback_failed") ≡ true
    → is_valid u (advanced r (failure r.checkpoint) now) ≡ true
unfolding is_valid has_valid_fields has_valid_checkpoint same_bool allows_forward allows_rollback
    advanced is_public_message
failure-valid u r now v s e = ground arith

records :
    (u : Unicode) (k : String) (r : UpdaterResultV2) (d : Directory) (now : ℕ)
    → d k ≡ some (v2_entry r)
    → is_valid u r ≡ true
    → r.operation_id ≡ k
    → r.status ≡ rolling_back
    → is_error_code u (some "automatic_rollback_failed") ≡ true
    → checkpoint_v2 u k (failure r.checkpoint) now d
      ≡ ok (
        advanced r (failure r.checkpoint) now,
        write r.operation_id (v2_entry (advanced r (failure r.checkpoint) now)) d,
      )
unfolding checkpoint_v2 read_v2
records u k r d now t v named s e =
    rw (read_tracked u k r d t v named, failure-passes u r v s e, failure-valid u r now v s e)

-- An operation that rolls back.
abbrev pub IsRolling : {D : Type 0} → String → World D → Type 0
IsRolling k w = (r : UpdaterResultV2) × Tracks k w r × (r.status ≡ rolling_back)

module _ {D : Type 0} (env : Collaborators D) where
  -- The record was written: the operation has failed.
  record_written :
      (k : String) (w : World D) (c : UpdaterResultV2)
      → Tracks k w c
      → Sound env.unicode k c
      → c.status ≡ rolling_back
      → is_error_code env.unicode (some "automatic_rollback_failed") ≡ true
      → record_rollback_failed env k w ≡ record w {
        journal =
            write c.operation_id
              (v2_entry (advanced c (failure c.checkpoint) (env.now w.outside)))
              w.journal;
      }
  unfolding record_rollback_failed mark_failed write_checkpoint
  record_written k w c t sound s e = rw (
    record_rollback_failed,
    read_tracked env.unicode k c w.journal t sound.valid sound.named,
    ap (λ x. is_status x rolling_back) s,
    is_status_refl rolling_back,
    records env.unicode k c w.journal (env.now w.outside) t sound.valid sound.named s e,
  )

  record-IsRolling :
      (k : String) (w : World D) (c : UpdaterResultV2)
      → Tracks k w c
      → Sound env.unicode k c
      → c.status ≡ rolling_back
      → is_error_code env.unicode (some "automatic_rollback_failed") ≡ true
      → ¬ IsRolling k (record_rollback_failed env k w)
  unfolding advanced
  record-IsRolling k w c t sound s e (r, t', s') =
      let here : some (v2_entry (advanced c (failure c.checkpoint) (env.now w.outside)))
          ≡ some (v2_entry r) =
        sym (write_same k c.operation_id _ w.journal sound.named)
        ∙ ap (λ (x : World D). x.journal k) (sym (record_written k w c t sound s e))
        ∙ t' in
      let status : rollback_failed ≡ r.status =
        ap (λ (x : UpdaterResultV2). x.status) (same_entry _ _ here) in
      cc

  record_left :
      (k : String) (w : World D) (q : Result Entry)
      → read env.unicode k w.journal ≡ q
      → ((c : UpdaterResultV2) → q ≡ ok (v2_entry c) → is_status c.status rolling_back ≡ false)
      → record_rollback_failed env k w ≡ w
  unfolding record_rollback_failed mark_failed
  record_left k w (err e) h other = rw (record_rollback_failed, h) refl
  record_left k w (ok (v1_entry c)) h other = rw (record_rollback_failed, h) refl
  record_left k w (ok (bad_entry m)) h other = rw (record_rollback_failed, h) refl
  record_left k w (ok (v2_entry c)) h other = rw (record_rollback_failed, h, other c refl) refl

  -- The result of a directory in order is read.
  read_rolling :
      (k : String) (w : World D) (r : UpdaterResultV2)
      → IsSoundEntry env.unicode k (w.journal k)
      → Tracks k w r
      → Sound env.unicode k r × (read env.unicode k w.journal ≡ ok (v2_entry r))
  read_rolling k w r sound t =
      let s : Sound env.unicode k r = subst (IsSoundEntry env.unicode k) t sound in
      (s, read_tracked env.unicode k r w.journal t s.valid s.named)

  -- After it no operation is left rolling back.
  pub record_settles :
      (k : String) (w : World D)
      → IsSoundEntry env.unicode k (w.journal k)
      → is_error_code env.unicode (some "automatic_rollback_failed") ≡ true
      → ¬ IsRolling k (record_rollback_failed env k w)
  record_settles k w sound e left = elim (Result-cases (read env.unicode k w.journal)) [
    | inl (x, q) ↦
        let same = record_left k w (err x) q (λ c h. cc) in
        let (r, t, s) = subst (IsRolling k) same left in
        let (_, q') = read_rolling k w r sound t in cc
    | inr (v1_entry c, q) ↦
        let same = record_left k w (ok (v1_entry c)) q (λ c h. cc) in
        let (r, t, s) = subst (IsRolling k) same left in
        let (_, q') = read_rolling k w r sound t in cc
    | inr (bad_entry m, q) ↦
        let same = record_left k w (ok (bad_entry m)) q (λ c h. cc) in
        let (r, t, s) = subst (IsRolling k) same left in
        let (_, q') = read_rolling k w r sound t in cc
    | inr (v2_entry c, q) ↦
        let t = read_found env.unicode k w.journal (v2_entry c) q in
        let (sound', _) = read_rolling k w c sound t in
        elim (Bool-cases (is_status c.status rolling_back)) [
          | inl is ↦ record-IsRolling k w c t sound' (is_status_eq _ _ is) e left
          | inr other ↦
              let same = record_left k w (ok (v2_entry c)) q (λ d h.
                let eq : c ≡ d = cc in
                ap (λ (x : UpdaterResultV2). is_status x.status rolling_back) (sym eq) ∙ other) in
              let (r, t', s) = subst (IsRolling k) same left in
              let eq = same_entry c r (sym t ∙ t') in
              let s' : c.status ≡ rolling_back = ap (λ (x : UpdaterResultV2). x.status) eq ∙ s in
              let yes = ap (λ x. is_status x rolling_back) s' ∙ is_status_refl rolling_back in cc
        ]
  ]
