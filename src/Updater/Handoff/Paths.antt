-- ===== src/Updater/Handoff/Paths.antt =====
-- The paths of devices in a hand-off: `_valid_handoff_device_path` of
-- `services/update_snapshot_service.py`, with `posixpath.normpath`.
use media_sync.Prelude.{
  ℕ, Bool, false, ◌&&◌, ◌||◌, not, List, [], ◌∷◌, ◌++◌, ◌==◌, ltb, leb, if◌then◌else◌, length,
}
use media_sync.Updater.Text.{codes, same_codes, has_code}

-- `text.split("/")`
unfoldable pub split_path : List ℕ → List (List ℕ)
split_path [] = [] ∷ []
split_path (c ∷ cs) =
    let rest = split_path cs in
    if c == b'/'
    then [] ∷ rest
    else elim rest [ [] ↦ (c ∷ []) ∷ [] | part ∷ parts ↦ (c ∷ part) ∷ parts ]

-- `"/".join(parts)`
unfoldable pub join_path : List (List ℕ) → List ℕ
join_path [] = []
join_path (part ∷ []) = part
join_path (part ∷ next ∷ parts) = part ++ (b'/' ∷ join_path (next ∷ parts))

-- The parts that `posixpath.normpath` keeps, the last one first.
unfoldable pub kept_parts : Bool → List (List ℕ) → List (List ℕ) → List (List ℕ)
unfolding same_codes
kept_parts rooted kept [] = kept
kept_parts rooted kept (part ∷ parts) = kept_parts rooted next parts
  where
    up : List ℕ
    up = codes ".."

    after_up : List (List ℕ)
    after_up = elim kept [
      | [] ↦ if rooted then [] else up ∷ []
      | last ∷ others ↦ if same_codes last up then up ∷ last ∷ others else others
    ]

    next : List (List ℕ)
    next =
        if same_codes part [] || same_codes part (codes ".")
        then kept
        else if same_codes part up
        then after_up
        else part ∷ kept

unfoldable pub reversed : List (List ℕ) → List (List ℕ) → List (List ℕ)
reversed done [] = done
reversed done (part ∷ parts) = reversed (part ∷ done) parts

-- Two slashes at the start, and not three, are kept as two.
unfoldable pub initial_slashes : List ℕ → List ℕ
unfolding has_code
initial_slashes (a ∷ b ∷ c ∷ cs) =
    if not (a == b'/')
    then []
    else if (b == b'/') && not (c == b'/')
    then b'/' ∷ b'/' ∷ []
    else b'/' ∷ []
initial_slashes (a ∷ b ∷ []) =
    if not (a == b'/') then [] else if b == b'/' then b'/' ∷ b'/' ∷ [] else b'/' ∷ []
initial_slashes (a ∷ []) = if a == b'/' then b'/' ∷ [] else []
initial_slashes [] = []

-- `posixpath.normpath` of a text that is not empty.
unfoldable pub normpath : List ℕ → List ℕ
unfolding initial_slashes kept_parts reversed join_path split_path
normpath cs =
    let slashes = initial_slashes cs in
    let path =
      slashes ++ join_path (reversed [] (kept_parts (ltb 0 (length slashes)) [] (split_path cs))) in
    elim path [ [] ↦ codes "." | c ∷ rest ↦ c ∷ rest ]

-- `value.startswith("/")`
unfoldable pub is_rooted : List ℕ → Bool
is_rooted [] = false
is_rooted (c ∷ cs) = c == b'/'

-- `_valid_handoff_device_path`
unfoldable pub valid_handoff_device_path : List ℕ → Bool
unfolding is_rooted has_code normpath same_codes
valid_handoff_device_path cs =
    ltb 1 (length cs)
    && leb (length cs) 4096
    && is_rooted cs
    && not (has_code 0 cs)
    && same_codes (normpath cs) cs
