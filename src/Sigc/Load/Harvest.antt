-- ===== src/Sigc/Load/Harvest.antt =====
-- The payload loaders of tools/sigc.py: `_harvest_prefixes`, `load_mmt_payload` and
-- `load_ndpi_payload`. A file is the stem of its name with the literals that the regular
-- expressions match in it, in their order.
use ngfw_policy.Prelude.{
  ℕ, List, [], ◌∷◌, Option, none, some, Text, Dict, get, put, put-All, add, codes, drop, take,
  length, leb, is_nil, if◌then◌else◌, All, Bool-cases, inl, inr, list_eq, nat_eq,
}
use ngfw_policy.Sigc.Slug.{slug}
use ngfw_policy.Sigc.Load.{Load, pure, ◌>>=◌}
use ngfw_policy.Sigc.Load.Sound.{Runs, Runs-if, Runs-pure, Runs-bind}
use ngfw_policy.Sigc.Load.Netify.{is_prefix}
use ngfw_policy.Sigc.Rules.Payloads.{IsByte}
use ngfw_policy.Sigc.Load.Prefixes.{Emitted, emit_prefixes}
use ngfw_policy.Sigc.Load.Prefixes.Filters.{IsPrefixClaim, Runs-emit_prefixes}
use ngfw_policy.Sigc.Load.Prefixes.Shape.{take-All}

abbrev pub PrefixClaims : Type 0
PrefixClaims = Dict (List ℕ) (List Text)

-- The name that `load_mmt_payload` gives a file: the stem behind "proto_".
unfoldable pub mmt_namer : Text → Option Text
unfolding is_prefix
mmt_namer stem = if is_prefix (codes "proto_") stem then some (drop 6 stem) else none

module _ (c_string_bytes : Text → List ℕ) where
  harvest_literal : Text → Text → PrefixClaims → PrefixClaims
  harvest_literal proto lit claims =
      let raw : List ℕ = c_string_bytes lit in
      let owners : List Text = elim (get (take 4 raw) claims) [ none ↦ [] | some s ↦ s ] in
      if leb 4 (length raw) then put (take 4 raw) (add (slug proto) owners) claims else claims

  harvest_literals : Text → List Text → PrefixClaims → PrefixClaims
  harvest_literals proto [] claims = claims
  harvest_literals proto (l ∷ ls) claims =
      harvest_literals proto ls (harvest_literal proto l claims)

  harvest_file : Option Text → List Text → PrefixClaims → PrefixClaims
  harvest_file none lits claims = claims
  harvest_file (some proto) lits claims =
      if is_nil proto then claims else harvest_literals proto lits claims

  -- `_harvest_prefixes`
  unfoldable pub harvest :
      (Text → Option Text) → List (Text × List Text) → PrefixClaims → PrefixClaims
  unfolding harvest_file harvest_literals harvest_literal
  harvest namer [] claims = claims
  harvest namer ((stem, lits) ∷ fs) claims =
      harvest namer fs (harvest_file (namer stem) lits claims)

  payload_loader : (Text → Option Text) → ℕ → List (Text × List Text) → Load (Option Emitted)
  payload_loader namer license_tier files =
      let claims : PrefixClaims = harvest namer files [] in
      if is_nil claims
      then pure none
      else do out ← emit_prefixes claims license_tier 65; pure (some out)

  -- `load_mmt_payload`; `none` is its report that the tree is missing
  pub load_mmt_payload : List (Text × List Text) → Load (Option Emitted)
  unfolding payload_loader
  load_mmt_payload = payload_loader mmt_namer 0

  -- `load_ndpi_payload`
  pub load_ndpi_payload : List (Text × List Text) → Load (Option Emitted)
  unfolding payload_loader
  load_ndpi_payload = payload_loader some 1

  module _ (decoded : (t : Text) → All IsByte (c_string_bytes t)) where
    harvest_literal-All :
        (proto lit : Text) (claims : PrefixClaims)
        → All IsPrefixClaim claims
        → All IsPrefixClaim (harvest_literal proto lit claims)
    unfolding harvest_literal
    harvest_literal-All proto lit claims h =
        elim (Bool-cases (leb 4 (length (c_string_bytes lit)))) [
          | inr short ↦ rw short h
          | inl enough ↦ rw enough (
              put-All (All IsByte) (take 4 (c_string_bytes lit)) _ claims
                (take-All 4 (c_string_bytes lit) (decoded lit)) h)
        ]

    harvest_literals-All :
        (proto : Text) (lits : List Text) (claims : PrefixClaims)
        → All IsPrefixClaim claims
        → All IsPrefixClaim (harvest_literals proto lits claims)
    unfolding harvest_literals
    harvest_literals-All proto [] claims h = h
    harvest_literals-All proto (l ∷ ls) claims h =
        harvest_literals-All proto ls _ (harvest_literal-All proto l claims h)

    harvest_file-All :
        (proto : Option Text) (lits : List Text) (claims : PrefixClaims)
        → All IsPrefixClaim claims
        → All IsPrefixClaim (harvest_file proto lits claims)
    unfolding harvest_file
    harvest_file-All none lits claims h = h
    harvest_file-All (some proto) lits claims h = elim (Bool-cases (is_nil proto)) [
      | inl empty ↦ rw empty h
      | inr named ↦ rw named (harvest_literals-All proto lits claims h)
    ]

    pub harvest-All :
        (namer : Text → Option Text) (files : List (Text × List Text)) (claims : PrefixClaims)
        → All IsPrefixClaim claims
        → All IsPrefixClaim (harvest namer files claims)
    unfolding harvest
    harvest-All namer [] claims h = h
    harvest-All namer ((stem, lits) ∷ fs) claims h =
        harvest-All namer fs _ (harvest_file-All (namer stem) lits claims h)

    Runs-payload_loader :
        (namer : Text → Option Text) (license_tier : ℕ) (files : List (Text × List Text))
        → Runs (payload_loader namer license_tier files)
    unfolding payload_loader
    Runs-payload_loader namer license_tier files =
        Runs-if (is_nil (harvest namer files [])) _ _ (Runs-pure none) (
          Runs-bind _ _
            (Runs-emit_prefixes (harvest namer files []) license_tier 65
              (harvest-All namer files [] tt))
            (λ out. Runs-pure (some out)))

    pub Runs-load_mmt_payload : (files : List (Text × List Text)) → Runs (load_mmt_payload files)
    unfolding load_mmt_payload
    Runs-load_mmt_payload files = Runs-payload_loader mmt_namer 0 files

    pub Runs-load_ndpi_payload : (files : List (Text × List Text)) → Runs (load_ndpi_payload files)
    unfolding load_ndpi_payload
    Runs-load_ndpi_payload files = Runs-payload_loader some 1 files
