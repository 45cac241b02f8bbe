-- ===== src/Prelude/Chars.antt =====
-- Python's `str` as the list of its code points, with the methods that the program calls. Case and
-- white space are those of ASCII.
use Prim.Native.Nat.{ℕ, ◌+◌}
use Prim.Native.Char.{code}
use Prim.Native.String.{String}
use mathlib.Core.Bool.{Bool, false, ◌&&◌, ◌||◌}
use mathlib.Core.List.{List, [], ◌∷◌, map}
use ngfw_policy.Prelude.Tests.{eqb, leb, if◌then◌else◌}
use ngfw_policy.Prelude.Lists.{is_nil}

abbrev pub Text : Type 0
Text = List ℕ

-- A literal of the source.
abbrev pub codes : String → Text
codes String.[] = []
codes (String.◌∷◌ c s) = code c ∷ codes s

unfoldable pub lower_code : ℕ → ℕ
lower_code c = if leb 65 c && leb c 90 then c + 32 else c

-- `s.lower()`
abbrev pub lower : Text → Text
lower = map lower_code

-- `c.isspace()`, as `strip` uses it
unfoldable pub is_space : ℕ → Bool
is_space c = leb 9 c && leb c 13 || leb 28 c && leb c 32

module _ (p : ℕ → Bool) where
  -- `s.lstrip(chars)`
  unfoldable pub lstrip : Text → Text
  lstrip [] = []
  lstrip (c ∷ s) = let rest = lstrip s in if p c then rest else c ∷ s

  -- `s.rstrip(chars)`
  unfoldable pub rstrip : Text → Text
  rstrip [] = []
  rstrip (c ∷ s) = let rest = rstrip s in if p c && is_nil rest then [] else c ∷ rest

  -- `s.strip(chars)`
  unfoldable pub strip : Text → Text
  unfolding lstrip rstrip
  strip s = rstrip (lstrip s)

-- `c in s` for one character
unfoldable pub has_code : ℕ → Text → Bool
has_code c [] = false
has_code c (x ∷ s) = eqb x c || has_code c s

-- The first and the last character pass a test.
unfoldable pub head_is : (ℕ → Bool) → Text → Bool
head_is p [] = false
head_is p (x ∷ s) = p x

unfoldable pub last_is : (ℕ → Bool) → Text → Bool
last_is p [] = false
last_is p (x ∷ s) = if is_nil s then p x else last_is p s

-- `s.startswith(c)` and `s.endswith(c)` for one character
abbrev pub starts_with : ℕ → Text → Bool
starts_with c = head_is (λ x. eqb x c)

abbrev pub ends_with : ℕ → Text → Bool
ends_with c = last_is (λ x. eqb x c)

-- `cc in s`: the character twice in a row
unfoldable pub has_double : ℕ → Text → Bool
unfolding head_is
has_double c [] = false
has_double c (x ∷ s) = eqb x c && starts_with c s || has_double c s
