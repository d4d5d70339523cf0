-- ===== src/Tasks/Json.antt =====
-- JSON values, as the payload, metrics and result columns hold them. The modelled code carries them
-- and looks one key up, so a number is kept as its text.
use media_sync.Prelude.{String, Bool, false, Option, none, some, text_eq, if◌then◌else◌}

mutual
  pub data Json : Type 0 where
    null : Json
    bool : Bool → Json
    num : String → Json
    str : String → Json
    arr : Items → Json
    obj : Fields → Json

  pub data Items : Type 0 where
    nil : Items
    cons : Json → Items → Items

  pub data Fields : Type 0 where
    end : Fields
    field : String → Json → Fields → Fields

-- `mapping.get(key)`
unfoldable pub get_field : String → Fields → Option Json
get_field k end = none
get_field k (field j v rest) = if text_eq j k then some v else get_field k rest

abbrev pub is_true : Option Json → Bool
is_true (some (bool b)) = b
is_true _ = false

-- The negation of `not metrics or metrics.get("continuation") is not True`. An empty mapping is
-- falsy and has no such key.
unfoldable pub is_continuation : Option Fields → Bool
unfolding get_field
is_continuation none = false
is_continuation (some fields) = is_true (get_field "continuation" fields)
