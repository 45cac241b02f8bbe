-- ===== src/Sigc/Load/Prefixes.antt =====
-- The payload prefixes of tools/sigc.py: the filters of `_emit_prefixes` and of
-- `load_libprotoident`, from the claims (a pattern with the protocols that use it).
pub mod Claims
pub mod Filters
pub mod Shape
use ngfw_policy.Prelude.{
  ℕ, ◌+◌, ◌≡◌, refl, Bool, true, false, not, ◌&&◌, ◌||◌, List, [], ◌∷◌, Option, none, some, Text,
  eqb, ltb, length, if◌then◌else◌, Dict, add, list_eq, nat_eq,
}
use ngfw_policy.Sigc.Load.{Load, pure, ◌>>=◌, on_some, for_each, app, payload, count_if}

-- `set(xs)`
unfoldable pub to_set : List ℕ → List ℕ → List ℕ
unfolding add
to_set acc [] = acc
to_set acc (x ∷ xs) = to_set (add x acc) xs

unfoldable pub distinct : List ℕ → ℕ
unfolding to_set
distinct xs = length (to_set [] xs)

-- The one owner of a pattern, or none.
unfoldable pub sole : List Text → Option Text
sole (owner ∷ []) = some owner
sole _ = none

abbrev pub full_mask : List ℕ
full_mask = 255 ∷ 255 ∷ 255 ∷ 255 ∷ []

pub record Emitted : Type 0 where
  pub apps : List Text
  pub emitted : ℕ
  pub ambiguous : ℕ
  pub degenerate : ℕ

emit_row : ℕ → ℕ → Emitted → List ℕ × List Text → Load Emitted
emit_row license_tier confidence st (pattern, owners) =
    on_some (sole owners) (pure (record st { ambiguous = st.ambiguous + 1 })) λ slug.
      if ltb (distinct pattern) 2 then pure (record st { degenerate = st.degenerate + 1 }) else do
        aid ← app slug license_tier
        added ← payload pattern full_mask aid 0 confidence license_tier
        pure (record st { apps = add slug st.apps; emitted = count_if added st.emitted })

-- `_emit_prefixes`
pub emit_prefixes : Dict (List ℕ) (List Text) → ℕ → ℕ → Load Emitted
unfolding emit_row for_each
emit_prefixes claims license_tier confidence =
    for_each (emit_row license_tier confidence)
      (record { apps = []; emitted = 0; ambiguous = 0; degenerate = 0 }) claims

-- `sum(1 for m in mask if m)`
unfoldable pub pinned : List ℕ → ℕ
pinned [] = 0
pinned (m ∷ mask) = (if eqb m 0 then 0 else 1) + pinned mask

-- `bytes(v for v, m in zip(value, mask) if m)`
unfoldable pub known : List ℕ → List ℕ → List ℕ
known [] mask = []
known (v ∷ value) [] = []
known (v ∷ value) (m ∷ mask) = let rest = known value mask in if eqb m 0 then rest else v ∷ rest

-- `CONF[n]`; another number is a KeyError
unfoldable pub confidence_of : ℕ → Load ℕ
confidence_of n b =
    if eqb n 4
    then some (65, b)
    else if eqb n 3
    then some (55, b)
    else if eqb n 2
    then some (40, b)
    else none

pub record Protoident : Type 0 where
  pub apps : List Text
  pub exact : ℕ
  pub wild : ℕ
  pub ambiguous : ℕ
  pub degenerate : ℕ
  pub too_loose : ℕ

protoident_add : Protoident → List ℕ → List ℕ → Text → Load Protoident
protoident_add st value mask slug = do
  aid ← app slug 1
  confidence ← confidence_of (pinned mask)
  added ← payload value mask aid 0 confidence 1
  pure (record st {
    apps = add slug st.apps;
    exact = count_if (added && eqb (pinned mask) 4) st.exact;
    wild = count_if (added && not (eqb (pinned mask) 4)) st.wild;
  })

protoident_row : Protoident → (List ℕ × List ℕ) × List Text → Load Protoident
unfolding protoident_add
protoident_row st ((value, mask), owners) =
    on_some (sole owners) (pure (record st { ambiguous = st.ambiguous + 1 })) λ slug.
      if ltb (pinned mask) 2
      then pure (record st { too_loose = st.too_loose + 1 })
      else if ltb (distinct (known value mask)) 2
      then pure (record st { degenerate = st.degenerate + 1 })
      else protoident_add st value mask slug

-- The second half of `load_libprotoident`: the filters over all claims.
pub load_protoident : Dict (List ℕ × List ℕ) (List Text) → Load Protoident
unfolding protoident_row for_each
load_protoident claims =
    for_each protoident_row
      (record { apps = []; exact = 0; wild = 0; ambiguous = 0; degenerate = 0; too_loose = 0 })
      claims
