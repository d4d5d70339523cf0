-- ===== src/Updater/Journal/Inversion.antt =====
-- What it takes for a call of the journal to succeed, and what it then writes.
use media_sync.Prelude.{
  ℕ, String, ◌≡◌, refl, ap, ◌∙◌, Bool, true, false, not, Option, none, some, leb, is_some, text_eq,
  arith, text_eq_iff, inl, inr, Bool-cases, Option-cases,
}
use media_sync.Updater.Text.{Unicode}
use media_sync.Updater.Errors.{UpdaterError, Result, ok, err, ◌>>=◌, ◌>>◌, refuse}
use media_sync.Updater.Handoff.{HandoffDocument, validate_handoff_document}
use media_sync.Updater.Checkpoint.{is_terminal}
use media_sync.Updater.Journal.Model.{UpdaterResultV2, is_valid}
use media_sync.Updater.Journal.{
  Entry, v1_entry, v2_entry, bad_entry, Directory, write, validate_operation_id, initial_v2,
  validated, start_v2, read_entry, entry_operation, read, expect_v2, read_v2, taken_over,
  takeover_v2, CheckpointArgs, check_advance, advanced, checkpoint_v2,
}

-- Two calls after one another returned: the first did, and the second did on its value.
pub bind_inv :
    {X Y : Type 0} (call : Result X) (next : X → Result Y) {y : Y}
    → (call >>= next) ≡ ok y
    → (x : X) × (call ≡ ok x) × (next x ≡ ok y)
bind_inv (ok x) next h = (x, refl, h)
bind_inv (err raised) next h = cc

-- A guard that let a call pass.
pub refuse_inv :
    {B : Type 0} (test : Bool) (e : UpdaterError) (k : Result B) {b : B}
    → (refuse test e >> k) ≡ ok b
    → (test ≡ false) × (k ≡ ok b)
refuse_inv true e k h = cc
refuse_inv false e k h = (refl, h)

pub then_inv :
    {B : Type 0} (m : Result (Unit {0})) (k : Result B) {b : B}
    → (m >> k) ≡ ok b
    → (m ≡ ok tt) × (k ≡ ok b)
then_inv (ok tt) k h = (refl, h)
then_inv (err e) k h = cc

pub not-false : (b : Bool) → not b ≡ false → b ≡ true
not-false true h = refl
not-false false h = cc

expect_v2_inv : (e : Entry) (r : UpdaterResultV2) → expect_v2 e ≡ ok r → e ≡ v2_entry r
expect_v2_inv (v1_entry s) r h = cc
expect_v2_inv (v2_entry s) r h = cc
expect_v2_inv (bad_entry m) r h = cc

read_entry_inv :
    (u : Unicode) (o : Option Entry) (r : UpdaterResultV2)
    → read_entry u o ≡ ok (v2_entry r)
    → (o ≡ some (v2_entry r)) × (is_valid u r ≡ true)
unfolding read_entry
read_entry_inv u none r h = cc
read_entry_inv u (some (v1_entry s)) r h = cc
read_entry_inv u (some (bad_entry m)) r h = cc
read_entry_inv u (some (v2_entry s)) r h = ground arith

-- The entry that passed a check of its operation.
named_inv :
    (e : Entry) (k : String) (x : UpdaterError) (r : UpdaterResultV2)
    → (refuse (not (text_eq (entry_operation e) k)) x >> ok e) ≡ ok (v2_entry r)
    → (e ≡ v2_entry r) × (r.operation_id ≡ k)
named_inv (v1_entry s) k x r h = ground arith
named_inv (bad_entry m) k x r h = ground arith
named_inv (v2_entry s) k x r h = ground (arith, text_eq_iff s.operation_id k)

module _ (u : Unicode) (k : String) (d : Directory) where
  pub read_inv :
      (r : UpdaterResultV2)
      → read u k d ≡ ok (v2_entry r)
      → (d k ≡ some (v2_entry r)) × (is_valid u r ≡ true) × (r.operation_id ≡ k)
  unfolding read
  read_inv r h =
      let (_, h₁) = then_inv (validate_operation_id k) _ h in
      let (e, found, h₂) = bind_inv (read_entry u (d k)) _ h₁ in
      let (same, named) = named_inv e k _ r h₂ in
      let (there, valid) = read_entry_inv u (d k) r (found ∙ ap ok same) in (there, valid, named)

  -- A result that was read is in the file, valid, and of the operation asked for.
  pub read_v2_inv :
      (r : UpdaterResultV2)
      → read_v2 u k d ≡ ok r
      → (d k ≡ some (v2_entry r)) × (is_valid u r ≡ true) × (r.operation_id ≡ k)
  unfolding read_v2
  read_v2_inv r h =
      let (e, found, h₁) = bind_inv (read u k d) _ h in
      read_inv r (found ∙ ap ok (expect_v2_inv e r h₁))

  -- A record that is written is valid, and the directory has it at its operation.
  pub validated_inv :
      (s : UpdaterResultV2) (m : String) {r : UpdaterResultV2} {d' : Directory}
      → validated u s m d ≡ ok (r, d')
      → (is_valid u s ≡ true) × (r ≡ s) × (d' ≡ write s.operation_id (v2_entry s) d)
  validated_inv s m h = elim (Bool-cases (is_valid u s)) [
    | inl e ↦ let h' = (rw e at h) in (e, cc, cc)
    | inr e ↦ absurd ground (arith, rw e at h)
  ]

-- What a call that succeeded found, and the record it wrote.
pub record Wrote (u : Unicode) (d d' : Directory) (r : UpdaterResultV2) : Type 0 where
  pub valid : is_valid u r ≡ true
  pub written : d' ≡ write r.operation_id (v2_entry r) d

module _ (u : Unicode) (d : Directory) where
  pub start_v2_inv :
      (document : HandoffDocument) (coordinator : String) (now : ℕ) {r : UpdaterResultV2}
      {d' : Directory}
      → start_v2 u document coordinator now d ≡ ok (r, d')
      → (d document.operation_id ≡ none)
        × (r ≡ initial_v2 document coordinator now)
        × Wrote u d d' r
  unfolding start_v2
  start_v2_inv document coordinator now h =
      let (_, h₁) = then_inv (validate_handoff_document u document) _ h in
      let (free, h₂) = refuse_inv (is_some (d document.operation_id)) _ _ h₁ in
      let (valid, same, written) = validated_inv u document.operation_id d _ _ h₂ in
      (
        elim (Option-cases (d document.operation_id)) [ inl e ↦ e | inr (x, e) ↦ absurd cc ],
        same,
        record { valid = ap (is_valid u) same ∙ valid; written = rw same written },
      )

  pub takeover_v2_inv :
      (k coordinator : String) (now : ℕ) {r : UpdaterResultV2} {d' : Directory}
      → takeover_v2 u k coordinator now d ≡ ok (r, d')
      → (c : UpdaterResultV2) × (read_v2 u k d ≡ ok c)
        × (is_terminal c.status ≡ false)
        × (r ≡ taken_over c coordinator now)
        × Wrote u d d' r
  unfolding takeover_v2
  takeover_v2_inv k coordinator now h =
      let (c, found, h₁) = bind_inv (read_v2 u k d) _ h in
      let (live, h₂) = refuse_inv (is_terminal c.status) _ _ h₁ in
      let (_, h₃) = refuse_inv (leb 3 c.recovery_generation) _ _ h₂ in
      let (valid, same, written) = validated_inv u k d _ _ h₃ in
      (
        c,
        found,
        live,
        same,
        record { valid = ap (is_valid u) same ∙ valid; written = rw same written },
      )

  pub checkpoint_v2_inv :
      (k : String) (a : CheckpointArgs) (now : ℕ) {r : UpdaterResultV2} {d' : Directory}
      → checkpoint_v2 u k a now d ≡ ok (r, d')
      → (c : UpdaterResultV2) × (read_v2 u k d ≡ ok c)
        × (check_advance u c a ≡ ok tt)
        × (r ≡ advanced c a now)
        × Wrote u d d' r
  unfolding checkpoint_v2
  checkpoint_v2_inv k a now h =
      let (c, found, h₁) = bind_inv (read_v2 u k d) _ h in
      let (passed, h₂) = then_inv (check_advance u c a) _ h₁ in
      let (valid, same, written) = validated_inv u k d _ _ h₂ in
      (
        c,
        found,
        passed,
        same,
        record { valid = ap (is_valid u) same ∙ valid; written = rw same written },
      )

read_entry_found : (u : Unicode) (o : Option Entry) (e : Entry) → read_entry u o ≡ ok e → o ≡ some e
unfolding read_entry
read_entry_found u none e h = cc
read_entry_found u (some (v1_entry s)) e h = cc
read_entry_found u (some (bad_entry m)) e h = cc
read_entry_found u (some (v2_entry s)) e h = ground arith

-- What was read is in the file.
pub read_found :
    (u : Unicode) (k : String) (d : Directory) (e : Entry) → read u k d ≡ ok e → d k ≡ some e
unfolding read
read_found u k d e h =
    let (_, h₁) = then_inv (validate_operation_id k) _ h in
    let (x, found, h₂) = bind_inv (read_entry u (d k)) _ h₁ in
    let (_, h₃) = refuse_inv (not (text_eq (entry_operation x) k)) _ _ h₂ in
    read_entry_found u (d k) e (found ∙ h₃)
