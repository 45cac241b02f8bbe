-- ===== src/Sigc/Load/Prefixes/Filters.antt =====
-- The prefix loaders run without an error on the claims that they collect.
use ngfw_policy.Prelude.{
  ℕ, ◌≤◌, ◌≡◌, refl, false, List, [], ◌∷◌, Text, eqb, ltb, length, Dict, All, arith, Bool-cases,
  inl, inr,
}
use ngfw_policy.Sigc.Load.Sound.{Runs, load_rules, Runs-for_each, Runs-on_some, Runs-pure, Runs-if}
use ngfw_policy.Sigc.Rules.Payloads.{IsByte, IsWholeByte}
use ngfw_policy.Sigc.Load.Prefixes.{
  sole, full_mask, Emitted, emit_row, emit_prefixes, pinned, confidence_of, Protoident,
  protoident_add, protoident_row, load_protoident,
}

pub full_mask-IsWhole : All IsWholeByte full_mask
full_mask-IsWhole = (inr refl, (inr refl, (inr refl, (inr refl, tt))))

abbrev pub IsPrefixClaim : List ℕ × List Text → Type 0
IsPrefixClaim (pattern, owners) = All IsByte pattern

Runs-emit_row :
    (license_tier confidence : ℕ) (st : Emitted) (claim : List ℕ × List Text)
    → IsPrefixClaim claim
    → Runs (emit_row license_tier confidence st claim)
unfolding emit_row
Runs-emit_row license_tier confidence st (pattern, owners) h =
    search (load_rules, full_mask-IsWhole) depth 9

-- On patterns of bytes the prefix loader returns, and leaves a sound builder.
pub Runs-emit_prefixes :
    (claims : Dict (List ℕ) (List Text)) (license_tier confidence : ℕ)
    → All IsPrefixClaim claims
    → Runs (emit_prefixes claims license_tier confidence)
unfolding emit_prefixes
Runs-emit_prefixes claims license_tier confidence h =
    Runs-for_each IsPrefixClaim _ (Runs-emit_row license_tier confidence) _ claims h

-- A claim of libprotoident: four bytes under four mask bytes, each all ones or zero.
abbrev pub IsClaimed : List ℕ × List ℕ → Type 0
IsClaimed (value, mask) = All IsByte value × All IsWholeByte mask × (length mask ≡ 4)

pinned-le-length : (mask : List ℕ) → pinned mask ≤ length mask
unfolding pinned
pinned-le-length [] = omega arith
pinned-le-length (m ∷ mask) = ground (arith, pinned-le-length mask)

Runs-confidence_of : (n : ℕ) → ltb n 2 ≡ false → n ≤ 4 → Runs (confidence_of n)
unfolding confidence_of
Runs-confidence_of n h k = record {
  at = λ b s. elim (Bool-cases (eqb n 4)) [
    | inl four ↦ (65, b, rw four, s)
    | inr not_four ↦ elim (Bool-cases (eqb n 3)) [
      | inl three ↦ (55, b, rw (not_four, three), s)
      | inr not_three ↦ (40, b, ground arith, s)
    ]
  ];
}

Runs-protoident_add :
    (st : Protoident) (value mask : List ℕ) (slug : Text)
    → All IsByte value
    → All IsWholeByte mask
    → ltb (pinned mask) 2 ≡ false
    → pinned mask ≤ 4
    → Runs (protoident_add st value mask slug)
unfolding protoident_add
Runs-protoident_add st value mask slug hv hm two four =
    search (load_rules, Runs-confidence_of) depth 9

Runs-protoident_row :
    (st : Protoident) (claim : (List ℕ × List ℕ) × List Text)
    → IsClaimed claim.0
    → Runs (protoident_row st claim)
unfolding protoident_row
Runs-protoident_row st ((value, mask), owners) (hv, hm, four) =
    Runs-on_some (sole owners) _ _ (Runs-pure _) λ slug. elim (Bool-cases (ltb (pinned mask) 2)) [
      | inl loose ↦ rw loose (Runs-pure _)
      | inr two ↦ rw two (
          Runs-if _ _ _ (Runs-pure _) (
            Runs-protoident_add st value mask slug hv hm two
              (omega (arith, pinned-le-length mask))))
    ]

-- On such claims the lookup of the confidence never fails: `load_libprotoident` returns, and leaves
-- a sound builder.
pub Runs-load_protoident :
    (claims : Dict (List ℕ × List ℕ) (List Text))
    → All (λ c. IsClaimed c.0) claims
    → Runs (load_protoident claims)
unfolding load_protoident
Runs-load_protoident claims h = Runs-for_each (λ c. IsClaimed c.0) _ Runs-protoident_row _ claims h
