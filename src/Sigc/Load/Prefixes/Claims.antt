-- ===== src/Sigc/Load/Prefixes/Claims.antt =====
-- `_lpi_byte` and the collection of claims of `load_libprotoident` in tools/sigc.py. The decoder of
-- C string literals, `_c_string_bytes`, rests on Python's `unicode_escape` and is an argument.
use ngfw_policy.Prelude.{
  ℕ, ◌+◌, ◌-◌, ◌*◌, Bool, not, ◌&&◌, ◌||◌, List, [], ◌∷◌, Option, none, some, Text, codes, eqb, ltb,
  leb, length, take, if◌then◌else◌, Dict, get, put, add, list_eq, nat_eq, pair_eq, strip, is_space,
  ◌==◌, every,
}
use ngfw_policy.Sigc.Load.Prefixes.{full_mask}

unfoldable pub hex_digit : ℕ → Option ℕ
hex_digit c =
    if leb b'0' c && leb c b'9'
    then some (c - b'0')
    else if leb b'a' c && leb c b'f'
    then some (c - b'a' + 10)
    else if leb b'A' c && leb c b'F'
    then some (c - b'A' + 10)
    else none

-- `0[xX]` and one or two hexadecimal digits: the body behind the prefix
hex_body : Text → Option ℕ
hex_body (d ∷ []) = hex_digit d
hex_body (d ∷ e ∷ []) = elim (hex_digit d) [
  | none ↦ none
  | some hi ↦ elim (hex_digit e) [ none ↦ none | some lo ↦ some (hi * 16 + lo) ]
]
hex_body _ = none

hex_token : Text → Option ℕ
unfolding hex_body
hex_token (z ∷ x ∷ body) = if eqb z b'0' && (eqb x b'x' || eqb x b'X') then hex_body body else none
hex_token _ = none

-- `'(\\?.)'`: what stands between the quotes, one character or two of which the first is a backslash
quoted : Text → Option Text
quoted (q ∷ c ∷ r ∷ []) = if eqb q 39 && eqb r 39 && not (eqb c 10) then some (c ∷ []) else none
quoted (q ∷ k ∷ c ∷ r ∷ []) =
    if eqb q 39 && eqb r 39 && eqb k 92 && not (eqb c 10) then some (k ∷ c ∷ []) else none
quoted _ = none

-- `bytes(values)`: a value above 255 is a ValueError, `none`
abbrev pub is_byte : ℕ → Bool
is_byte v = ltb v 256

abbrev pub Claims : Type 0
Claims = Dict (List ℕ × List ℕ) (List Text)

-- `claims.setdefault(pattern, set()).add(app)`
unfoldable pub claim : List ℕ × List ℕ → Text → Claims → Claims
claim pattern app claims =
    let owners : List Text = elim (get pattern claims) [ none ↦ [] | some s ↦ s ] in
    put pattern (add app owners) claims

-- One source file: the matches of `_LPI_MATCHSTR`, then those of `_LPI_MATCH`.
pub record LpiFile : Type 0 where
  pub app : Text
  pub strings : List Text
  pub matches : List (Text × Text × Text × Text)

module _ (c_string_bytes : Text → List ℕ) where
  -- The value and the mask of a quoted character.
  unfoldable pub char_byte : Text → ℕ × ℕ
  char_byte [] = (0, 0)
  char_byte (c ∷ more) =
      if eqb c 92
      then elim (c_string_bytes (c ∷ more)) [ [] ↦ (0, 0) | b ∷ bs ↦ (b, 255) ]
      else (c, 255)

  -- `_lpi_byte`; an expression that it cannot evaluate, (-1, -1) in the source, is none
  unfoldable pub lpi_byte : Text → Option (ℕ × ℕ)
  unfolding hex_token quoted char_byte
  lpi_byte tok =
      let t : Text = strip is_space tok in
      if t == codes "ANY" then some (0, 0) else elim (hex_token t) [
        | some v ↦ some (v, 255)
        | none ↦ elim (quoted t) [ some c ↦ some (char_byte c) | none ↦ none ]
      ]

  -- The pattern of the arguments of one MATCH, or none.
  unfoldable pub match_pattern : List Text → Option (List ℕ × List ℕ)
  match_pattern [] = some ([], [])
  match_pattern (tok ∷ toks) =
      let rest = match_pattern toks in
      elim (lpi_byte tok) [
        | none ↦ none
        | some (v, m) ↦ elim rest [
          | none ↦ none
          | some (values, masks) ↦ some ((if eqb m 0 then 0 else v) ∷ values, m ∷ masks)
        ]
      ]

  -- One match of `_LPI_MATCHSTR`, the body of the literal.
  unfoldable pub claim_string : Text → Text → Claims → Claims
  claim_string app literal claims =
      let raw : List ℕ = c_string_bytes literal in
      if leb 4 (length raw) then claim (take 4 raw, full_mask) app claims else claims

  -- One match of `_LPI_MATCH`, its four arguments; none is the ValueError of `bytes`.
  unfoldable pub claim_match : Text → List Text → Claims → Option Claims
  claim_match app toks claims = elim (match_pattern toks) [
    | none ↦ some claims
    | some (value, mask) ↦
        if every is_byte value then some (claim (value, mask) app claims) else none
  ]

  unfoldable pub claim_strings : Text → List Text → Claims → Claims
  claim_strings app [] claims = claims
  claim_strings app (s ∷ ss) claims = claim_strings app ss (claim_string app s claims)

  unfoldable pub claim_matches : Text → List (Text × Text × Text × Text) → Claims → Option Claims
  claim_matches app [] claims = some claims
  claim_matches app ((t, u, v, w) ∷ ms) claims =
      elim (claim_match app (t ∷ u ∷ v ∷ w ∷ []) claims) [
        | none ↦ none
        | some claims' ↦ claim_matches app ms claims'
      ]

  -- The first half of `load_libprotoident`, over its files in order.
  unfoldable pub collect : List LpiFile → Claims → Option Claims
  unfolding claim_strings claim_matches claim_string claim_match match_pattern lpi_byte claim
  collect [] claims = some claims
  collect (f ∷ fs) claims =
      elim (claim_matches f.app f.matches (claim_strings f.app f.strings claims)) [
        | none ↦ none
        | some claims' ↦ collect fs claims'
      ]
