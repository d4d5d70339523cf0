-- ===== src/Updater/Text.antt =====
-- The texts that the updater checks: the patterns `CONTAINER_ID_PATTERN`, `CONTAINER_NAME_PATTERN`,
-- `DIGEST_PATTERN`, `REVISION_PATTERN`, `VERSION_PATTERN` and `validate_operation_id`. A pattern is a
-- Boolean test on the code points of a text, since the program only asks for a full match.
use Prim.Native.Char.{code}
use media_sync.Prelude.{
  ℕ, suc, ◌+◌, ◌-◌, ◌++◌, String, Bool, true, false, ◌&&◌, ◌||◌, not, Option, none, some, List, [],
  ◌∷◌, ◌==◌, leb, if◌then◌else◌, length,
}

abbrev pub codes : String → List ℕ
codes String.[] = []
codes (String.◌∷◌ c s) = code c ∷ codes s

-- Whether two texts are the same, by their code points.
unfoldable pub same_codes : List ℕ → List ℕ → Bool
same_codes [] [] = true
same_codes [] (y ∷ ys) = false
same_codes (x ∷ xs) [] = false
same_codes (x ∷ xs) (y ∷ ys) = (x == y) && same_codes xs ys

unfoldable pub every : (ℕ → Bool) → List ℕ → Bool
every test [] = true
every test (c ∷ cs) = test c && every test cs

unfoldable pub has_code : ℕ → List ℕ → Bool
has_code k [] = false
has_code k (c ∷ cs) = (c == k) || has_code k cs

-- [0-9]
abbrev pub is_digit : ℕ → Bool
is_digit c = leb b'0' c && leb c b'9'

-- [0-9a-f]
abbrev pub is_lower_hex : ℕ → Bool
is_lower_hex c = is_digit c || (leb b'a' c && leb c b'f')

-- [A-Za-z0-9]
abbrev pub is_ascii_alnum : ℕ → Bool
is_ascii_alnum c = is_digit c || (leb b'A' c && leb c b'Z') || (leb b'a' c && leb c b'z')

-- [A-Za-z0-9_.-]
abbrev pub is_name_code : ℕ → Bool
is_name_code c = is_ascii_alnum c || (c == b'_') || (c == b'.') || (c == b'-')

-- What follows a prefix.
unfoldable pub after_prefix : List ℕ → List ℕ → Option (List ℕ)
after_prefix [] cs = some cs
after_prefix (p ∷ ps) [] = none
after_prefix (p ∷ ps) (c ∷ cs) = if p == c then after_prefix ps cs else none

-- `text.rpartition("@")`, none when there is no "@".
unfoldable pub rpartition : List ℕ → Option (List ℕ × List ℕ)
rpartition [] = none
rpartition (c ∷ cs) = elim (rpartition cs) [
  | some p ↦ some (c ∷ p.0, p.1)
  | none ↦ if c == b'@' then some ([], cs) else none
]

-- `text.split(mark, 1)[0]`
unfoldable pub before : ℕ → List ℕ → List ℕ
before k [] = []
before k (c ∷ cs) = let rest = before k cs in if c == k then [] else c ∷ rest

-- CONTAINER_ID_PATTERN of `docker_capability_service.py`: ^[0-9a-f]{12,64}$
unfoldable pub is_container_id : List ℕ → Bool
unfolding every
is_container_id cs = leb 12 (length cs) && leb (length cs) 64 && every is_lower_hex cs

-- `len(value) == 64` and the pattern
unfoldable pub is_full_container_id : List ℕ → Bool
unfolding is_container_id
is_full_container_id cs = (length cs == 64) && is_container_id cs

-- ^[A-Za-z0-9][A-Za-z0-9_.-]{0,127}$
unfoldable pub is_container_name : List ℕ → Bool
unfolding every
is_container_name [] = false
is_container_name (c ∷ cs) = is_ascii_alnum c && leb (length cs) 127 && every is_name_code cs

-- ^sha256:[0-9a-f]{64}$
unfoldable pub is_digest : List ℕ → Bool
unfolding every after_prefix
is_digest cs = elim (after_prefix (codes "sha256:") cs) [
  | none ↦ false
  | some rest ↦ (length rest == 64) && every is_lower_hex rest
]

-- ^[0-9a-f]{40}$
unfoldable pub is_revision : List ℕ → Bool
unfolding every
is_revision cs = (length cs == 40) && every is_lower_hex cs

-- ^[A-Za-z0-9_-]{32,128}$
unfoldable pub is_candidate_token : List ℕ → Bool
unfolding every
is_candidate_token cs =
    leb 32 (length cs)
    && leb (length cs) 128
    && every (λ c. is_ascii_alnum c || (c == b'_') || (c == b'-')) cs

-- The hexadecimal digits and hyphens of 8-4-4-4-12, from a position on.
unfoldable pub is_uuid_from : ℕ → List ℕ → Bool
is_uuid_from i [] = i == 36
is_uuid_from i (c ∷ cs) =
    let is_mark = (i == 8) || (i == 13) || (i == 18) || (i == 23) in
    (if is_mark then c == b'-' else is_lower_hex c) && is_uuid_from (suc i) cs

-- `str(uuid.UUID(value)) == value`: `str` prints lower case digits in groups of 8-4-4-4-12, and
-- `UUID` reads every such text back.
unfoldable pub is_operation_id : List ℕ → Bool
unfolding is_uuid_from
is_operation_id cs = is_uuid_from 0 cs

-- What the program asks of Python's tables of characters: `str.isalnum`, `str.upper`, `str.lower`
-- and `str.isspace` of one character, and `\d` of a pattern.
pub record Unicode : Type 0 where
  pub is_alnum : ℕ → Bool
  pub is_decimal : ℕ → Bool
  pub is_space : ℕ → Bool
  pub upper : ℕ → List ℕ
  pub lower : ℕ → List ℕ

abbrev ascii_upper : ℕ → List ℕ
ascii_upper c = if leb b'a' c && leb c b'z' then (c - 32) ∷ [] else (c ∷ [])

abbrev ascii_lower : ℕ → List ℕ
ascii_lower c = if leb b'A' c && leb c b'Z' then (c + 32) ∷ [] else (c ∷ [])

-- The tables within ASCII.
abbrev pub ascii : Unicode
ascii = record {
  is_alnum = is_ascii_alnum;
  is_decimal = is_digit;
  is_space = λ c. (leb 9 c && leb c 13) || (leb 28 c && leb c 32);
  upper = ascii_upper;
  lower = ascii_lower;
}

-- `text.upper()` and `text.lower()`, given the table.
unfoldable pub convert : (ℕ → List ℕ) → List ℕ → List ℕ
convert table [] = []
convert table (c ∷ cs) = table c ++ convert table cs

-- `text.lstrip()`
unfoldable pub strip_left : (ℕ → Bool) → List ℕ → List ℕ
strip_left space [] = []
strip_left space (c ∷ cs) = let rest = strip_left space cs in if space c then rest else c ∷ cs

-- `text.rstrip()`
unfoldable pub strip_right : (ℕ → Bool) → List ℕ → List ℕ
strip_right space [] = []
strip_right space (c ∷ cs) = elim (strip_right space cs) [
  | [] ↦ if space c then [] else c ∷ []
  | d ∷ ds ↦ c ∷ d ∷ ds
]

-- `text.strip().lower()`
unfoldable pub strip_lower : Unicode → List ℕ → List ℕ
unfolding convert strip_left strip_right
strip_lower u cs = convert u.lower (strip_right u.is_space (strip_left u.is_space cs))

unfoldable pub only_marks : List ℕ → Bool
unfolding every
only_marks cs = every (λ c. c == b'_') cs

-- `text.replace("_", "").isalnum()`
unfoldable pub is_alnum_text : Unicode → List ℕ → Bool
unfolding every only_marks
is_alnum_text u cs = not (only_marks cs) && every (λ c. (c == b'_') || u.is_alnum c) cs

unfoldable pub after_digits : Unicode → List ℕ → List ℕ
after_digits u [] = []
after_digits u (c ∷ cs) = let rest = after_digits u cs in if u.is_decimal c then rest else c ∷ cs

-- (?:0|[1-9]\d*)
unfoldable pub after_number : Unicode → List ℕ → Option (List ℕ)
unfolding after_digits
after_number u [] = none
after_number u (c ∷ cs) =
    if c == b'0'
    then some cs
    else if leb b'1' c && leb c b'9'
    then some (after_digits u cs)
    else none

-- A prefix and a number after it.
unfoldable pub after_part : Unicode → String → Option (List ℕ) → Option (List ℕ)
unfolding after_number after_prefix
after_part u prefix none = none
after_part u prefix (some cs) = elim (after_prefix (codes prefix) cs) [
  | none ↦ none
  | some rest ↦ after_number u rest
]

unfoldable pub is_end : Option (List ℕ) → Bool
is_end (some []) = true
is_end _ = false

-- VERSION_PATTERN
unfoldable pub is_version : Unicode → List ℕ → Bool
unfolding after_part is_end
is_version u cs =
    let core = after_part u "." (after_part u "." (after_part u "v" (some cs))) in
    is_end core || is_end (after_part u "-rc." core)
