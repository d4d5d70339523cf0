-- ===== src/Updates/Repository.antt =====
-- `UpdateOperationRepository`. The functions that the source gives an object of the session take
-- its primary key here, and read the row; a key without a row stands for no object of the source.
use media_sync.Prelude.{
  ℕ, ◌+◌, String, Bool, true, false, ◌&&◌, ◌||◌, not, Option, none, some, List, [], ◌∷◌, ◌++◌,
  if◌then◌else◌, ◌==◌, first, is_some, is_empty, coalesce, text_eq, ◌⊎◌, inl, inr,
}
use media_sync.Updates.Model.{
  UpdateStatus, pulling, update_status_eq, is_over, can_update, UpdateOperation, Operations,
  UpdateError, value_error, active_conflict, state_error, immutable_row,
}

-- `session.get`: the row with a primary key.
unfoldable pub find_operation : ℕ → List UpdateOperation → Option UpdateOperation
find_operation i [] = none
find_operation i (o ∷ os) = if o.id == i then some o else find_operation i os

-- An UPDATE of the row with a primary key; no two rows have the same.
unfoldable pub put_operation :
    ℕ → (UpdateOperation → UpdateOperation) → List UpdateOperation → List UpdateOperation
put_operation i set [] = []
put_operation i set (o ∷ os) = if o.id == i then set o ∷ os else o ∷ put_operation i set os

-- `get_active`
unfoldable pub get_active : List UpdateOperation → Option UpdateOperation
get_active os = first (λ o. o.active_slot) os

-- `get_by_operation_id`
unfoldable pub get_by_operation_id : String → List UpdateOperation → Option UpdateOperation
get_by_operation_id k os = first (λ o. text_eq o.operation_id k) os

-- The arguments of `create`; `drawn` is the value of `uuid.uuid4`.
pub record CreateArgs : Type 0 where
  pub source_version : String
  pub status : UpdateStatus
  pub target_version : Option String
  pub target_digest : Option String
  pub operation_id : Option String
  pub drawn : String

-- `operation_id or str(uuid.uuid4())`: the empty string is falsy.
abbrev pub chosen_id : CreateArgs → String
chosen_id a = elim a.operation_id [ none ↦ a.drawn | some k ↦ if is_empty k then a.drawn else k ]

abbrev pub new_operation : CreateArgs → ℕ → ℕ → UpdateOperation
new_operation a now i = record {
  id = i;
  operation_id = chosen_id a;
  status = a.status;
  active_slot = true;
  source_version = a.source_version;
  target_version = a.target_version;
  target_digest = a.target_digest;
  error_code = none;
  error_message = none;
  completed_at = none;
  created_at = now;
}

-- The two unique constraints: one row with an active slot, one row for each operation id.
abbrev pub clashes : UpdateOperation → List UpdateOperation → Bool
clashes o os =
    (o.active_slot && is_some (get_active os)) || is_some (get_by_operation_id o.operation_id os)

-- `create`
unfoldable pub create : CreateArgs → ℕ → Operations → UpdateError ⊎ (UpdateOperation × Operations)
unfolding get_active get_by_operation_id
create a now s =
    let o = new_operation a now s.next_id in
    if is_over a.status
    then inl value_error
    else if clashes o s.rows
    then inl active_conflict
    else inr (o, record { rows = s.rows ++ o ∷ []; next_id = s.next_id + 1 })

-- An UPDATE of the row, as the trigger allows it: a row that is over is immutable.
unfoldable pub update :
    ℕ → (UpdateOperation → UpdateOperation) → Operations → UpdateError ⊎ Operations
update i set s = elim (find_operation i s.rows) [
  | none ↦ inr s
  | some o ↦
      if o.active_slot
      then inr (record s { rows = put_operation i set s.rows })
      else inl immutable_row
]

-- `completed_at or utcnow()`
abbrev pub finish_operation :
    UpdateStatus → ℕ → Option String → Option String → UpdateOperation → UpdateOperation
finish_operation status at code message o = record o {
  status = status;
  active_slot = false;
  completed_at = some at;
  error_code = code;
  error_message = message;
}

-- `finish`
unfoldable pub finish :
    ℕ
    → UpdateStatus
    → Option ℕ
    → Option String
    → Option String
    → ℕ
    → Operations
    → UpdateError ⊎ Operations
unfolding update
finish i status completed_at code message now s = elim (find_operation i s.rows) [
  | none ↦ inl state_error
  | some o ↦
      if not o.active_slot
      then inl state_error
      else if not (is_over status)
      then inl value_error
      else if not (can_update o.status status)
      then inl state_error
      else update i (finish_operation status (coalesce completed_at now) code message) s
]

abbrev pub move_operation : UpdateStatus → UpdateOperation → UpdateOperation
move_operation status o = record o { status = status }

-- `transition_active`
unfoldable pub transition_active : ℕ → UpdateStatus → Operations → UpdateError ⊎ Operations
unfolding update
transition_active i status s = elim (find_operation i s.rows) [
  | none ↦ inl state_error
  | some o ↦
      if not o.active_slot
      then inl state_error
      else if is_over status
      then inl value_error
      else if not (can_update o.status status)
      then inl state_error
      else update i (move_operation status) s
]

-- `value not in {None, given}` is the negation of this.
abbrev pub is_open_or : Option String → String → Bool
is_open_or none given = true
is_open_or (some k) given = text_eq k given

abbrev pub set_target : String → String → UpdateOperation → UpdateOperation
set_target version digest o = record o {
  target_version = some version;
  target_digest = some digest;
}

-- `set_verified_target`
unfoldable pub set_verified_target : ℕ → String → String → Operations → UpdateError ⊎ Operations
unfolding update
set_verified_target i version digest s = elim (find_operation i s.rows) [
  | none ↦ inl state_error
  | some o ↦
      if not o.active_slot
      then inl state_error
      else if not (update_status_eq o.status pulling)
      then inl state_error
      else if not (is_open_or o.target_version version)
      then inl state_error
      else if not (is_open_or o.target_digest digest)
      then inl state_error
      else update i (set_target version digest) s
]
