-- ===== src/Sigdb/Pool.antt =====
-- The string pool of `Builder.serialize` in tools/sigc.py: `intern` stores each string once, in
-- UTF-8 with a zero byte behind it, and a reader takes the bytes up to the next zero.
pub mod Strings
use ngfw_policy.Prelude.{
  ℕ, ◌+◌, ◌-◌, ◌/◌, ◌%◌, Bool, true, false, ◌&&◌, ◌||◌, List, [], ◌∷◌, ◌++◌, Option, none, some,
  Text, Dict, get, put, list_eq, nat_eq, length, drop, ltb, leb, eqb, if◌then◌else◌,
}

-- `chr(c).encode("utf-8", "replace")`: a surrogate becomes a question mark
unfoldable pub encode_code : ℕ → List ℕ
encode_code c =
    if ltb c 0x80
    then c ∷ []
    else if ltb c 0x800
    then (0xc0 + c / 64) ∷ (0x80 + c % 64) ∷ []
    else if leb 0xd800 c && leb c 0xdfff
    then b'?' ∷ []
    else if ltb c 0x10000
    then (0xe0 + c / 4096) ∷ (0x80 + c / 64 % 64) ∷ (0x80 + c % 64) ∷ []
    else (0xf0 + c / 262144) ∷ (0x80 + c / 4096 % 64) ∷ (0x80 + c / 64 % 64) ∷ (0x80 + c % 64) ∷ []

unfoldable pub encode : Text → List ℕ
unfolding encode_code
encode [] = []
encode (c ∷ s) = encode_code c ++ encode s

pub record Pool : Type 0 where
  pub bytes : List ℕ
  pub offsets : Dict Text ℕ

-- Offset 0 is the empty string.
abbrev pub empty_pool : Pool
empty_pool = record { bytes = 0 ∷ []; offsets = [] }

-- `intern`
unfoldable pub intern : Text → Pool → ℕ × Pool
unfolding encode get put
intern s p = elim (get s p.offsets) [
  | some off ↦ (off, p)
  | none ↦ (
    length p.bytes,
    record { bytes = p.bytes ++ (encode s ++ 0 ∷ []); offsets = put s (length p.bytes) p.offsets },
  )
]

-- The names of a table, interned in order.
unfoldable pub intern_all : List Text → Pool → List ℕ × Pool
unfolding intern
intern_all [] p = ([], p)
intern_all (s ∷ ss) p =
    let (off, p') = intern s p in let (offs, p'') = intern_all ss p' in (off ∷ offs, p'')

-- The bytes before the first zero; no zero is the ValueError of `index`.
unfoldable pub until_zero : List ℕ → Option (List ℕ)
until_zero [] = none
until_zero (b ∷ bs) =
    let rest = until_zero bs in
    if eqb b 0 then some [] else elim rest [ none ↦ none | some l ↦ some (b ∷ l) ]

-- `pool[off:pool.index(b"\0", off)]`
unfoldable pub string_at : List ℕ → ℕ → Option (List ℕ)
unfolding until_zero
string_at pool off = until_zero (drop off pool)
