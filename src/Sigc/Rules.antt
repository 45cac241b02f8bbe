-- ===== src/Sigc/Rules.antt =====
-- The methods `domain`, `cidr` and `payload` of class `Builder` of tools/sigc.py. A method returns
-- its Boolean result and the new state. The parser of addresses, `ipaddress.ip_network`, is the
-- argument `ip_network` of `cidr`; it is none where Python raises ValueError.
pub mod Names
pub mod Payloads
pub mod Unique
use Prim.Native.Nat.{bit_and}
use ngfw_policy.Prelude.{
  ℕ, ◌+◌, ◌-◌, Bool, true, false, not, ◌&&◌, ◌||◌, List, [], ◌∷◌, ◌++◌, Option, none, some, Text,
  contains, has_code, has_double, strip, lstrip, rstrip, lower, is_space, is_nil, starts_with, eqb,
  length, if◌then◌else◌, nat_eq, list_eq, pair_eq, triple_eq, quad_eq, head_is, lower_code,
}
use ngfw_policy.Sigc.Builder.{Builder, DomainRule, CidrRule, PayloadRule, dropped}

-- `DOM_SUFFIX`, `DOM_EXACT` and the license tiers
abbrev pub dom_suffix : ℕ
dom_suffix = 0

abbrev pub dom_exact : ℕ
dom_exact = 1

-- A leading dot is the marker of "and all subdomains".
unfoldable pub strip_marker : Text → Bool → Text × Bool
unfolding head_is lstrip
strip_marker name exact =
    if starts_with b'.' name then (lstrip (λ c. eqb c b'.') name, false) else (name, exact)

-- The tests of `domain` on a name that is trimmed.
unfoldable pub is_matchable : Text → Bool
unfolding has_code has_double
is_matchable name =
    not (is_nil name || has_code b' ' name || not (has_code b'.' name))
    && not (has_double b'.' name)

-- The name that `domain` stores with its kind, or none where it returns False.
unfoldable pub clean_name : Text → Bool → Option (Text × ℕ)
unfolding strip_marker rstrip strip is_matchable is_space lower_code
clean_name raw exact =
    let (name, exact') = strip_marker (lower (strip is_space raw)) exact in
    let trimmed = rstrip (λ c. eqb c b'.') name in
    if is_matchable trimmed then some (trimmed, if exact' then dom_exact else dom_suffix) else none

unfoldable pub add_domain : Text → ℕ → ℕ → ℕ → ℕ → ℕ → Builder → Bool × Builder
unfolding contains
add_domain name kind app_id tier confidence license_tier b =
    let key : Text × ℕ × ℕ = (name, kind, app_id) in
    if contains key b.seen then (false, b) else (
      true,
      record b {
        seen = b.seen ++ key ∷ [];
        domains =
            b.domains
            ++ record {
              name = name;
              app_id = app_id;
              kind = kind;
              confidence = confidence;
              tier = tier;
              license = license_tier;
            }
              ∷ [];
      },
    )

-- `Builder.domain`
unfoldable pub domain : Text → ℕ → Bool → ℕ → ℕ → ℕ → Builder → Bool × Builder
unfolding clean_name add_domain
domain raw app_id exact tier confidence license_tier b = elim (clean_name raw exact) [
  | none ↦ (false, b)
  | some (name, kind) ↦ add_domain name kind app_id tier confidence license_tier b
]

-- What the code reads of an `ipaddress` network.
pub record Network : Type 0 where
  pub packed : List ℕ
  pub version : ℕ
  pub prefixlen : ℕ

-- `n` zero bytes
unfoldable pub zeros : ℕ → List ℕ
zeros ℕ.zero = []
zeros (ℕ.suc n) = 0 ∷ zeros n

unfoldable pub add_cidr : Network → ℕ → ℕ → ℕ → ℕ → Builder → Bool × Builder
unfolding contains zeros
add_cidr net app_id tier confidence license_tier b =
    let raw : List ℕ = net.packed ++ zeros (16 - length net.packed) in
    let af : ℕ = if eqb net.version 4 then 4 else 6 in
    let key : List ℕ × ℕ × ℕ × ℕ = (raw, net.prefixlen, af, app_id) in
    if contains key b.seen_cidr then (false, b) else (
      true,
      record b {
        seen_cidr = b.seen_cidr ++ key ∷ [];
        cidrs =
            b.cidrs
            ++ record {
              raw = raw;
              app_id = app_id;
              prefixlen = net.prefixlen;
              af = af;
              tier = tier;
              confidence = confidence;
              license = license_tier;
            }
              ∷ [];
      },
    )

-- `Builder.cidr`
unfoldable pub cidr : (Text → Option Network) → Text → ℕ → ℕ → ℕ → ℕ → Builder → Bool × Builder
unfolding add_cidr
cidr ip_network text app_id tier confidence license_tier b =
    if eqb app_id dropped then (false, b) else elim (ip_network (strip is_space text)) [
      | none ↦ (false, b)
      | some net ↦ add_cidr net app_id tier confidence license_tier b
    ]

-- `_RESERVED_FRAMINGS`: for each framing, the bytes allowed at each of its positions.
abbrev pub tls_record : List (List ℕ)
tls_record = (0x14 ∷ 0x15 ∷ 0x16 ∷ 0x17 ∷ []) ∷ (0x03 ∷ []) ∷ []

abbrev pub reserved_framings : List (List (List ℕ))
reserved_framings = tls_record ∷ []

-- `all(mask[i] and value[i] in allowed ...)`; a pattern shorter than the framing, an IndexError in
-- the source, does not occur: `payload` has tested the lengths.
unfoldable pub pins_framing : List (List ℕ) → List ℕ → List ℕ → Bool
unfolding contains
pins_framing [] value mask = true
pins_framing (allowed ∷ f) (v ∷ value) (m ∷ mask) =
    not (eqb m 0) && contains v allowed && pins_framing f value mask
pins_framing (allowed ∷ f) _ _ = false

unfoldable pub pins_any : List (List (List ℕ)) → List ℕ → List ℕ → Bool
unfolding pins_framing
pins_any [] value mask = false
pins_any (f ∷ fs) value mask = pins_framing f value mask || pins_any fs value mask

-- `_pins_reserved_framing`
unfoldable pub pins_reserved_framing : List ℕ → List ℕ → Bool
unfolding pins_any
pins_reserved_framing = pins_any reserved_framings

-- `bytes(v & m for v, m in zip(value, mask))`
unfoldable pub masked : List ℕ → List ℕ → List ℕ
masked [] mask = []
masked (v ∷ value) [] = []
masked (v ∷ value) (m ∷ mask) = bit_and v m ∷ masked value mask

-- `any(mask)`
unfoldable pub any_set : List ℕ → Bool
any_set [] = false
any_set (m ∷ mask) = not (eqb m 0) || any_set mask

unfoldable pub add_payload : List ℕ → List ℕ → ℕ → ℕ → ℕ → ℕ → Builder → Bool × Builder
unfolding contains
add_payload value mask app_id tier confidence license_tier b =
    let key : List ℕ × List ℕ × ℕ = (value, mask, app_id) in
    if contains key b.seen_pay then (false, b) else (
      true,
      record b {
        seen_pay = b.seen_pay ++ key ∷ [];
        payloads =
            b.payloads
            ++ record {
              value = value;
              mask = mask;
              app_id = app_id;
              tier = tier;
              confidence = confidence;
              license = license_tier;
            }
              ∷ [];
      },
    )

-- `Builder.payload`
unfoldable pub payload : List ℕ → List ℕ → ℕ → ℕ → ℕ → ℕ → Builder → Bool × Builder
unfolding pins_reserved_framing any_set masked add_payload
payload value mask app_id tier confidence license_tier b =
    if eqb app_id dropped
    then (false, b)
    else if not (eqb (length value) 4) || not (eqb (length mask) 4)
    then (false, b)
    else if not (any_set mask)
    then (false, b)
    else if pins_reserved_framing value mask
    then (false, record b { reserved_dropped = b.reserved_dropped + 1 })
    else add_payload (masked value mask) mask app_id tier confidence license_tier b
