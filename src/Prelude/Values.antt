-- ===== src/Prelude/Values.antt =====
-- Optional values as the program tests them: SQL comparisons are not satisfied by NULL, and
-- Python's `==` tells `None` from every text.
use Prim.Native.Nat.{ℕ}
use Prim.Native.String.{String}
use mathlib.Core.Path.{◌≡◌, refl}
use mathlib.Core.Bool.{Bool, true, false}
use mathlib.Core.Option.{Option, none, some}
use native.Mathlib.Omega.{arith}
use text.Mathlib.Text.{◌==◌ as text_eq}
use text.Mathlib.TextEquality.{eq_iff}
use media_sync.Prelude.Tests.{ltb, leb}

module _ {ℓ} {A : Type ℓ} where
  abbrev pub is_some : Option A → Bool
  is_some none = false
  is_some (some a) = true

  -- SQL's `coalesce`, and `x or y` for a value that is never falsy.
  abbrev pub coalesce : Option A → A → A
  coalesce none d = d
  coalesce (some a) d = a

-- `not text`: only the empty text is falsy.
abbrev pub is_empty : String → Bool
is_empty s = text_eq s ""

-- column = text
abbrev pub holds : Option String → String → Bool
holds none k = false
holds (some v) k = text_eq v k

-- column > moment
abbrev pub is_after : Option ℕ → ℕ → Bool
is_after none now = false
is_after (some u) now = ltb now u

-- column <= moment
abbrev pub is_due : Option ℕ → ℕ → Bool
is_due none now = false
is_due (some u) now = leb u now

pub holds→some : (o : Option String) (k : String) → holds o k ≡ true → o ≡ some k
holds→some none k h = ground arith
holds→some (some v) k h = ground (arith, eq_iff v k)

pub text_eq_refl : (k : String) → text_eq k k ≡ true
text_eq_refl k = (eq_iff k k).1 refl
