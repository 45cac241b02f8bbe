-- ===== src/Sigc/Load/Prefixes/Shape.antt =====
-- The claims that libprotoident's sources make: four bytes under whole mask bytes.
use mathlib.Core.Path.{subst}
use mathlib.Core.Option.{some-injective}
use ngfw_policy.Prelude.{
  suc, ◌∙◌, put-All, ℕ, ◌≡◌, refl, true, List, [], ◌∷◌, some, Text, leb, length, take, list_eq,
  nat_eq, pair_eq, every, All, arith, Bool-cases, Option-cases, inl, inr,
}
use ngfw_policy.Sigc.Rules.Payloads.{IsByte, IsWholeByte}
use ngfw_policy.Sigc.Load.Sound.{Runs}
use ngfw_policy.Sigc.Load.Prefixes.{full_mask, load_protoident}
use ngfw_policy.Sigc.Load.Prefixes.Filters.{IsClaimed, full_mask-IsWhole, Runs-load_protoident}
use ngfw_policy.Sigc.Load.Prefixes.Claims.{
  Claims, LpiFile, is_byte, lpi_byte, match_pattern, claim, claim_string, claim_match,
  claim_strings, claim_matches, collect,
}

abbrev AreClaims : Claims → Type 0
AreClaims = All (λ c. IsClaimed c.0)

claim-AreClaims :
    (pattern : List ℕ × List ℕ) (app : Text) (claims : Claims)
    → IsClaimed pattern
    → AreClaims claims
    → AreClaims (claim pattern app claims)
unfolding claim
claim-AreClaims pattern app claims ok h = put-All IsClaimed pattern _ claims ok h

every-is_byte : (vs : List ℕ) → every is_byte vs ≡ true → All IsByte vs
unfolding every
every-is_byte [] h = tt
every-is_byte (v ∷ vs) h = (ground arith, every-is_byte vs (ground arith))

pub take-All : (n : ℕ) (vs : List ℕ) → All IsByte vs → All IsByte (take n vs)
take-All ℕ.zero vs h = tt
take-All (suc n) [] h = tt
take-All (suc n) (v ∷ vs) h = (h.0, take-All n vs h.1)

module _ (c_string_bytes : Text → List ℕ) where
  lpi_byte-IsWhole :
      (tok : Text) (v m : ℕ) → lpi_byte c_string_bytes tok ≡ some (v, m) → IsWholeByte m
  unfolding lpi_byte
  lpi_byte-IsWhole tok v m h = ground arith

  -- The masks of a pattern are all ones or zero, and there are as many bytes as arguments.
  pub match_pattern_shape :
      (toks : List Text) (value mask : List ℕ)
      → match_pattern c_string_bytes toks ≡ some (value, mask)
      → All IsWholeByte mask × (length mask ≡ length toks) × (length value ≡ length toks)
  unfolding match_pattern
  match_pattern_shape [] value mask h = ground arith
  match_pattern_shape (tok ∷ toks) value mask h =
      elim (Option-cases (lpi_byte c_string_bytes tok)) [
        | inl bad ↦ absurd (cc (rw (bad, match_pattern) at h))
        | inr ((v, m), e) ↦ elim (Option-cases (match_pattern c_string_bytes toks)) [
          | inl bad ↦ absurd (cc (rw (e, bad, match_pattern) at h))
          | inr ((values, masks), rest) ↦
              let (whole, len_m, len_v) = match_pattern_shape toks values masks rest in
              subst
                (λ (r : List ℕ × List ℕ).
                  All IsWholeByte r.1
                  × (length r.1 ≡ suc (length toks))
                  × (length r.0 ≡ suc (length toks)))
                (some-injective _ _ (rw (e, rest, match_pattern) at h))
                ((lpi_byte-IsWhole tok v m e, whole), omega arith, omega arith)
        ]
      ]

  claim_match-AreClaims :
      (app : Text) (toks : List Text) (claims claims' : Claims)
      → length toks ≡ 4
      → AreClaims claims
      → claim_match c_string_bytes app toks claims ≡ some claims'
      → AreClaims claims'
  unfolding claim_match
  claim_match-AreClaims app toks claims claims' four h e =
      elim (Option-cases (match_pattern c_string_bytes toks)) [
        | inl bad ↦ subst AreClaims (some-injective _ _ (rw (bad, claim_match) at e)) h
        | inr ((value, mask), pattern) ↦ elim (Bool-cases (every is_byte value)) [
          | inr large ↦ absurd (cc (rw (pattern, large, claim_match) at e))
          | inl bytes ↦
              let (whole, len_m, len_v) = match_pattern_shape toks value mask pattern in
              subst AreClaims (some-injective _ _ (rw (pattern, bytes, claim_match) at e)) (
                claim-AreClaims (value, mask) app claims
                  (every-is_byte value bytes, whole, len_m ∙ four) h)
        ]
      ]

  module _ (decoded : (t : Text) → All IsByte (c_string_bytes t)) where
    claim_string-AreClaims :
        (app literal : Text) (claims : Claims)
        → AreClaims claims
        → AreClaims (claim_string c_string_bytes app literal claims)
    unfolding claim_string
    claim_string-AreClaims app literal claims h =
        let raw = c_string_bytes literal in
        elim (Bool-cases (leb 4 (length raw))) [
          | inr short ↦ rw short h
          | inl enough ↦ rw enough (
              claim-AreClaims (take 4 raw, full_mask) app claims
                (take-All 4 raw (decoded literal), full_mask-IsWhole, refl) h)
        ]

    claim_strings-AreClaims :
        (app : Text) (ss : List Text) (claims : Claims)
        → AreClaims claims
        → AreClaims (claim_strings c_string_bytes app ss claims)
    unfolding claim_strings
    claim_strings-AreClaims app [] claims h = h
    claim_strings-AreClaims app (s ∷ ss) claims h =
        claim_strings-AreClaims app ss _ (claim_string-AreClaims app s claims h)

    claim_matches-AreClaims :
        (app : Text) (ms : List (Text × Text × Text × Text)) (claims claims' : Claims)
        → AreClaims claims
        → claim_matches c_string_bytes app ms claims ≡ some claims'
        → AreClaims claims'
    unfolding claim_matches
    claim_matches-AreClaims app [] claims claims' h e = subst AreClaims (some-injective _ _ e) h
    claim_matches-AreClaims app ((t, u, v, w) ∷ ms) claims claims' h e =
        let toks : List Text = t ∷ u ∷ v ∷ w ∷ [] in
        elim (Option-cases (claim_match c_string_bytes app toks claims)) [
          | inl raised ↦ absurd (cc (rw (raised, claim_matches) at e))
          | inr (next, step) ↦
              claim_matches-AreClaims app ms next claims'
                (claim_match-AreClaims app toks claims next refl h step)
                (rw (step, claim_matches) at e)
        ]

    pub collect-AreClaims :
        (files : List LpiFile) (claims claims' : Claims)
        → AreClaims claims
        → collect c_string_bytes files claims ≡ some claims'
        → AreClaims claims'
    unfolding collect
    collect-AreClaims [] claims claims' h e = subst AreClaims (some-injective _ _ e) h
    collect-AreClaims (f ∷ fs) claims claims' h e =
        let before = claim_strings c_string_bytes f.app f.strings claims in
        elim (Option-cases (claim_matches c_string_bytes f.app f.matches before)) [
          | inl raised ↦ absurd (cc (rw (raised, collect) at e))
          | inr (next, step) ↦
              collect-AreClaims fs next claims'
                (claim_matches-AreClaims f.app f.matches before next
                  (claim_strings-AreClaims f.app f.strings claims h) step)
                (rw (step, collect) at e)
        ]

    -- Where the decoder of C literals yields bytes and no value of a pattern exceeds a byte,
    -- `load_libprotoident` never fails to find a confidence: it returns, and leaves a sound builder.
    pub Runs-load_libprotoident :
        (files : List LpiFile) (claims : Claims)
        → collect c_string_bytes files [] ≡ some claims
        → Runs (load_protoident claims)
    Runs-load_libprotoident files claims e =
        Runs-load_protoident claims (collect-AreClaims files [] claims tt e)
