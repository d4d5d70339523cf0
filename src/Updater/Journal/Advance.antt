-- ===== src/Updater/Journal/Advance.antt =====
-- What one write of the journal may change: the relation between a result and the one that replaces it.
use media_sync.Prelude.{
  ℕ, ◌+◌, String, ◌≡◌, refl, Bool, true, false, ◌&&◌, ◌||◌, not, Option, none, some, ◌==◌, coalesce,
  arith, text_eq_iff, ◌⊎◌, inl, inr,
}
use media_sync.Updates.Recovery.{UpdaterStatus, rolling_back}
use media_sync.Updater.Text.{Unicode}
use media_sync.Updater.Errors.{UpdaterError, ok, refuse}
use media_sync.Updater.Checkpoint.{
  Checkpoint, is_rollback, index, is_status, is_terminal, can_transition,
}
use media_sync.Updater.Journal.Model.{UpdaterResultV2, same_bool}
use media_sync.Updater.Journal.{
  CheckpointArgs, differs, or_else, validate_checkpoint_progress, check_advance, advanced,
}
use media_sync.Updater.Journal.Inversion.{refuse_inv, then_inv}

-- A value that is set stays.
abbrev pub Kept : Option String → Option String → Type 0
Kept a b = (v : String) → a ≡ some v → b ≡ some v

-- How the checkpoint moves: on by one, not at all while the status changes, or from the forward path
-- to the first checkpoint of the path back.
pub data Moves (c r : UpdaterResultV2) : Type 0 where
  on :
      is_rollback r.checkpoint ≡ is_rollback c.checkpoint
      → index r.checkpoint ≡ index c.checkpoint + 1
      → Moves c r
  stays :
      is_rollback r.checkpoint ≡ is_rollback c.checkpoint
      → index r.checkpoint ≡ index c.checkpoint
      → is_status r.status c.status ≡ false
      → Moves c r
  turns :
      is_rollback c.checkpoint ≡ false
      → is_rollback r.checkpoint ≡ true
      → index r.checkpoint ≡ 0
      → r.status ≡ rolling_back
      → Moves c r

-- What names the operation, which no write changes.
pub record SameOperation (c r : UpdaterResultV2) : Type 0 where
  pub operation : r.operation_id ≡ c.operation_id
  pub source : r.source_container_id ≡ c.source_container_id
  pub image : r.source_image_id ≡ c.source_image_id
  pub name : r.source_container_name ≡ c.source_container_name
  pub target : r.target_image ≡ c.target_image
  pub revision : r.target_revision ≡ c.target_revision

pub record Advances (c r : UpdaterResultV2) : Type 0 where
  pub live : is_terminal c.status ≡ false
  pub next : r.sequence ≡ c.sequence + 1
  pub generation : r.recovery_generation ≡ c.recovery_generation
  pub coordinator : r.coordinator_container_id ≡ c.coordinator_container_id
  pub same : SameOperation c r
  pub status : (is_status r.status c.status ≡ true) ⊎ (can_transition c.status r.status ≡ true)
  pub token : Kept c.candidate_token_hash r.candidate_token_hash
  pub candidate : Kept c.candidate_container_id r.candidate_container_id
  pub moves : Moves c r

pub same_bool_eq : (a b : Bool) → same_bool a b ≡ true → a ≡ b
unfolding same_bool
same_bool_eq a b h = ground arith

pub is_status_eq : (a b : UpdaterStatus) → is_status a b ≡ true → a ≡ b
unfolding is_status
is_status_eq a b h = ground arith

or_else-Kept : (a b : Option String) → differs b a ≡ false → Kept b (or_else a b)
or_else-Kept none b h v e = e
or_else-Kept (some x) none h v e = cc
or_else-Kept (some x) (some y) h v e = ground (arith, text_eq_iff x y)

pub refuse_ok : (test : Bool) (e : UpdaterError) → refuse test e ≡ ok tt → test ≡ false
refuse_ok true e h = cc
refuse_ok false e h = refl

progress_cases :
    (c : UpdaterResultV2) (status : UpdaterStatus) (x : Checkpoint) (back : Bool)
    → validate_checkpoint_progress c status x back ≡ ok tt
    → ((is_rollback x ≡ is_rollback c.checkpoint) × (index x ≡ index c.checkpoint + 1))
      ⊎ ((is_rollback x ≡ is_rollback c.checkpoint)
          × (index x ≡ index c.checkpoint)
          × (is_status status c.status ≡ false))
      ⊎ ((is_rollback c.checkpoint ≡ false)
          × (is_rollback x ≡ true)
          × (index x ≡ 0)
          × (is_status status rolling_back ≡ true))
unfolding validate_checkpoint_progress index
progress_cases c status x back h = ground (
  arith,
  same_bool_eq (is_rollback c.checkpoint) (is_rollback x),
  refuse_ok (not (is_status status rolling_back) || not (index x == 0)),
  refuse_ok (is_status status c.status),
  refuse_ok (not (index x == index c.checkpoint + 1)),
)

progress_inv :
    (c : UpdaterResultV2) (a : CheckpointArgs) (now : ℕ)
    → validate_checkpoint_progress c a.status a.checkpoint
        (coalesce a.rollback_started c.rollback_started)
      ≡ ok tt
    → Moves c (advanced c a now)
unfolding advanced
progress_inv c a now h = elim (progress_cases c a.status a.checkpoint _ h) [
  | inl (same, i) ↦ on same i
  | inr (inl (same, i, other)) ↦ stays same i other
  | inr (inr (f, b, i, s)) ↦ turns f b i (is_status_eq _ _ s)
]

pub check_advance_inv :
    (u : Unicode) (c : UpdaterResultV2) (a : CheckpointArgs) (now : ℕ)
    → check_advance u c a ≡ ok tt
    → Advances c (advanced c a now)
unfolding check_advance advanced
check_advance_inv u c a now h =
    let (live, h₁) = refuse_inv (is_terminal c.status) _ _ h in
    let (status, h₂) =
      refuse_inv (not (is_status a.status c.status) && not (can_transition c.status a.status)) _ _
        h₁ in
    let (token, h₃) = refuse_inv (differs c.candidate_token_hash a.candidate_token_hash) _ _ h₂ in
    let (candidate, h₄) =
      refuse_inv (differs c.candidate_container_id a.candidate_container_id) _ _ h₃ in
    let (moves, _) =
      then_inv
        (validate_checkpoint_progress c a.status a.checkpoint
          (coalesce a.rollback_started c.rollback_started))
        _ h₄ in
    record {
      live = live;
      next = refl;
      generation = refl;
      coordinator = refl;
      same = record {
        operation = refl;
        source = refl;
        image = refl;
        name = refl;
        target = refl;
        revision = refl;
      };
      status = ground arith;
      token = or_else-Kept _ _ token;
      candidate = or_else-Kept _ _ candidate;
      moves = progress_inv c a now moves;
    }
