-- ===== src/Updater/Journal/Effects.antt =====
-- What each call of the journal does to the file of any operation.
use media_sync.Prelude.{
  ℕ, String, ◌≡◌, refl, sym, ap, ◌∙◌, subst, true, false, not, Option, none, some, if◌then◌else◌,
  text_eq, text_eq_iff, ◌⊎◌, inl, inr, Bool-cases, is_some,
}
use media_sync.Updates.Recovery.{UpdaterStatus}
use media_sync.Updater.Text.{Unicode}
use media_sync.Updater.Errors.{ok}
use media_sync.Updater.Handoff.{HandoffDocument}
use media_sync.Updater.Checkpoint.{is_terminal, can_transition}
use media_sync.Updater.Journal.Model.{
  UpdaterResultV1, UpdaterResultV2, is_valid, validate_public_error,
}
use media_sync.Updater.Journal.{
  Entry, v1_entry, v2_entry, bad_entry, Directory, write, start, initial_v1, moved_v1, initial_v2,
  start_v2, read, validate_operation_id, transition_entry, transition, taken_over, takeover_v2,
  CheckpointArgs, advanced, checkpoint_v2,
}
use media_sync.Updater.Journal.Inversion.{
  bind_inv, refuse_inv, not-false, then_inv, read_v2_inv, read_found, start_v2_inv, takeover_v2_inv,
  checkpoint_v2_inv,
}
use media_sync.Updater.Journal.Advance.{check_advance_inv}
use media_sync.Updater.Journal.System.{
  Call, starts, starts_v2, transitions, takes_over, checkpoints, Changes, first_v1, first_v2, moved,
  taken, advanced_to,
}

-- What a write leaves at another path, and at its own.
written_at :
    {u : Unicode} (d d' : Directory) (k key : String) (e : Entry)
    → d' ≡ write key e d
    → Changes u key (d key) (some e)
    → (d' k ≡ d k) ⊎ Changes u k (d k) (d' k)
written_at {u} d d' k key e w c = elim (Bool-cases (text_eq k key)) [
  | inl h ↦
      let same : k ≡ key = (text_eq_iff k key).0 h in
      let there : d' k ≡ some e = ap (λ f. f k) w ∙ ap (λ b. if b then some e else d k) h in
      inr (
        subst (λ o. Changes u k (d k) o) (sym there)
          (subst (λ x. Changes u x (d x) (some e)) (sym same) c))
  | inr h ↦ inl (ap (λ f. f k) w ∙ ap (λ b. if b then some e else d k) h)
]

from_free :
    {u : Unicode} (k : String) (o : Option Entry) (e : Entry)
    → is_some o ≡ false
    → Changes u k none (some e)
    → Changes u k o (some e)
from_free k none e free c = c
from_free k (some x) e free c = cc

from_found :
    {u : Unicode} {k : String} {o o' e : Option Entry} → o ≡ o' → Changes u k o' e → Changes u k o e
from_found {u} {k} {o} {o'} {e} p c = subst (λ x. Changes u k x e) (sym p) c

start-Changes :
    (u : Unicode) (d d' : Directory) (r : UpdaterResultV1) (k : String) (now : ℕ)
    → start k now d ≡ ok (r, d')
    → (d' ≡ write k (v1_entry (initial_v1 k now)) d)
      × Changes u k (d k) (some (v1_entry (initial_v1 k now)))
unfolding start initial_v1
start-Changes u d d' r k now h =
    let (_, h₁) = then_inv (validate_operation_id k) _ h in
    let (free, h₂) = refuse_inv (is_some (d k)) _ _ h₁ in
    (cc, from_free k (d k) _ free (first_v1 refl refl))

transition_entry-Changes :
    (u : Unicode) (d d' : Directory) (e : Entry) (r : UpdaterResultV1) (k : String)
    (status : UpdaterStatus) (error_code message : Option String) (now : ℕ)
    → transition_entry u k status error_code message now d e ≡ ok (r, d')
    → (c : UpdaterResultV1) × (e ≡ v1_entry c)
      × (d' ≡ write k (v1_entry (moved_v1 k c status error_code message now)) d)
      × Changes u k
          (some (v1_entry c))
          (some (v1_entry (moved_v1 k c status error_code message now)))
unfolding transition_entry moved_v1
transition_entry-Changes u d d' (v2_entry c) r k status error_code message now h = cc
transition_entry-Changes u d d' (bad_entry m) r k status error_code message now h = cc
transition_entry-Changes u d d' (v1_entry c) r k status error_code message now h =
    let (live, h₁) = refuse_inv (is_terminal c.status) _ _ h in
    let (can, h₂) = refuse_inv (not (can_transition c.status status)) _ _ h₁ in
    let (_, h₃) = then_inv (validate_public_error u error_code message) _ h₂ in
    (c, refl, cc, moved live (not-false _ can) refl)

transition-Changes :
    (u : Unicode) (d d' : Directory) (r : UpdaterResultV1) (k : String) (status : UpdaterStatus)
    (error_code message : Option String) (now : ℕ)
    → transition u k status error_code message now d ≡ ok (r, d')
    → (x : UpdaterResultV1) × (d' ≡ write k (v1_entry x) d) × Changes u k (d k) (some (v1_entry x))
unfolding transition
transition-Changes u d d' r k status error_code message now h =
    let (e, found, h₁) = bind_inv (read u k d) _ h in
    let (c, is, w, change) =
      transition_entry-Changes u d d' e r k status error_code message now h₁ in
    let there : d k ≡ some (v1_entry c) = read_found u k d e found ∙ ap some is in
    (_, w, from_found there change)

start_v2-Changes :
    (u : Unicode) (d d' : Directory) (r : UpdaterResultV2) (document : HandoffDocument)
    (coordinator : String) (now : ℕ)
    → start_v2 u document coordinator now d ≡ ok (r, d')
    → (x : UpdaterResultV2) × (d' ≡ write x.operation_id (v2_entry x) d)
      × Changes u x.operation_id (d x.operation_id) (some (v2_entry x))
unfolding initial_v2
start_v2-Changes u d d' r document coordinator now h =
    let (free, same, w) = start_v2_inv u d document coordinator now h in
    let valid : is_valid u (initial_v2 document coordinator now) ≡ true =
      ap (is_valid u) (sym same) ∙ w.valid in
    (
      initial_v2 document coordinator now,
      w.written ∙ ap (λ x. write x.operation_id (v2_entry x) d) same,
      from_found free (first_v2 valid refl refl refl refl refl),
    )

takeover_v2-Changes :
    (u : Unicode) (d d' : Directory) (r : UpdaterResultV2) (k coordinator : String) (now : ℕ)
    → takeover_v2 u k coordinator now d ≡ ok (r, d')
    → (x : UpdaterResultV2) × (d' ≡ write x.operation_id (v2_entry x) d)
      × Changes u x.operation_id (d x.operation_id) (some (v2_entry x))
unfolding taken_over
takeover_v2-Changes u d d' r k coordinator now h =
    let (c, found, live, same, w) = takeover_v2_inv u d k coordinator now h in
    let (there, _, named) = read_v2_inv u k d c found in
    (
      taken_over c coordinator now,
      w.written ∙ ap (λ x. write x.operation_id (v2_entry x) d) same,
      from_found (ap d named ∙ there) (
          taken (ap (is_valid u) (sym same) ∙ w.valid) (record {
            live = live;
            next = refl;
            generation = refl;
            same = record {
              operation = refl;
              source = refl;
              image = refl;
              name = refl;
              target = refl;
              revision = refl;
            };
            status = refl;
            checkpoint = refl;
            token = refl;
            candidate = refl;
          })),
    )

checkpoint_v2-Changes :
    (u : Unicode) (d d' : Directory) (r : UpdaterResultV2) (k : String) (a : CheckpointArgs)
    (now : ℕ)
    → checkpoint_v2 u k a now d ≡ ok (r, d')
    → (x : UpdaterResultV2) × (d' ≡ write x.operation_id (v2_entry x) d)
      × Changes u x.operation_id (d x.operation_id) (some (v2_entry x))
checkpoint_v2-Changes u d d' r k a now h =
    let (c, found, passed, same, w) = checkpoint_v2_inv u d k a now h in
    let (there, valid, named) = read_v2_inv u k d c found in
    let step = check_advance_inv u c a now passed in
    (
      advanced c a now,
      w.written ∙ ap (λ x. write x.operation_id (v2_entry x) d) same,
      from_found (ap d (step.same.operation ∙ named) ∙ there)
          (advanced_to valid (ap (is_valid u) (sym same) ∙ w.valid) step),
    )

-- Every call changes at most the file of its own operation, and that one by a single step: it
-- creates a first result, moves a result of version 1 along a transition, takes a result of version 2
-- over, or advances it.
pub Call-Changes :
    (u : Unicode) (d d' : Directory) (k : String)
    → Call u d d'
    → (d' k ≡ d k) ⊎ Changes u k (d k) (d' k)
Call-Changes u d d' k (starts {r = r} key now h) =
    let (w, change) = start-Changes u d d' r key now h in written_at d d' k key _ w change
Call-Changes u d d' k (starts_v2 {r = r} document coordinator now h) =
    let (x, w, change) = start_v2-Changes u d d' r document coordinator now h in
    written_at d d' k x.operation_id _ w change
Call-Changes u d d' k (transitions {r = r} key status error_code message now h) =
    let (x, w, change) = transition-Changes u d d' r key status error_code message now h in
    written_at d d' k key _ w change
Call-Changes u d d' k (takes_over {r = r} key coordinator now h) =
    let (x, w, change) = takeover_v2-Changes u d d' r key coordinator now h in
    written_at d d' k x.operation_id _ w change
Call-Changes u d d' k (checkpoints {r = r} key a now h) =
    let (x, w, change) = checkpoint_v2-Changes u d d' r key a now h in
    written_at d d' k x.operation_id _ w change
