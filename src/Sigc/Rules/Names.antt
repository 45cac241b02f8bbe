-- ===== src/Sigc/Rules/Names.antt =====
-- The names that `Builder.domain` stores.
use mathlib.Core.Path.{subst}
use mathlib.Core.Option.{some-injective}
use ngfw_policy.Prelude.{
  ℕ, ◌≤◌, ◌≡◌, refl, Bool, true, false, not, ◌&&◌, List, [], ◌∷◌, none, some, Text, has_code,
  has_double, strip, rstrip, lower, lower_code, is_space, is_nil, starts_with, ends_with, head_is,
  last_is, eqb, leb, length, if◌then◌else◌, every, All, All-snoc, arith, Bool-cases, Option-cases,
  inl, inr, head_is-lstrip, head_is-rstrip, last_is-rstrip, every-lstrip, every-rstrip, contains,
  nat_eq, list_eq, triple_eq,
}
use ngfw_policy.Sigc.Builder.{Builder}
use ngfw_policy.Sigc.Rules.{
  strip_marker, is_matchable, clean_name, add_domain, domain, dom_exact, dom_suffix,
}

-- `name.split(".")`: the labels of a domain name.
push : ℕ → List Text → List Text
push c [] = (c ∷ []) ∷ []
push c (l ∷ ls) = (c ∷ l) ∷ ls

unfoldable pub labels : Text → List Text
unfolding push
labels [] = [] ∷ []
labels (c ∷ s) = let rest = labels s in if eqb c b'.' then [] ∷ rest else push c rest

abbrev pub is_label : Text → Bool
is_label l = not (is_nil l)

abbrev is_lower : ℕ → Bool
is_lower c = not (leb 65 c && leb c 90)

-- At least two labels, none of them empty, no capital letter and no blank.
pub record IsDomainName (s : Text) : Type 0 where
  pub dotted : 2 ≤ length (labels s)
  pub filled : every is_label (labels s) ≡ true
  pub lowered : every is_lower s ≡ true
  pub unspaced : has_code b' ' s ≡ false

-- The labels but the first.
abbrev rest_labels : List Text → List Text
rest_labels [] = []
rest_labels (l ∷ ls) = ls

filled-push :
    (c : ℕ) (ls : List Text) → every is_label ls ≡ true → every is_label (push c ls) ≡ true
unfolding push every
filled-push c [] h = refl
filled-push c (l ∷ ls) h = ground arith

filled-labels :
    (s : Text)
    → is_nil s ≡ false
    → ends_with b'.' s ≡ false
    → has_double b'.' s ≡ false
    → every is_label (if starts_with b'.' s then rest_labels (labels s) else labels s) ≡ true
unfolding labels head_is last_is has_double every push
filled-labels [] n e d = cc
filled-labels (c ∷ []) n e d = ground arith
filled-labels (c ∷ x ∷ s) n e d =
    ground (arith, filled-labels (x ∷ s) refl e, filled-push c (labels (x ∷ s)))

length-push-pos : (c : ℕ) (ls : List Text) → 1 ≤ length (push c ls)
unfolding push
length-push-pos c [] = omega arith
length-push-pos c (l ∷ ls) = omega arith

length-push-le : (c : ℕ) (ls : List Text) → length ls ≤ length (push c ls)
unfolding push
length-push-le c [] = omega arith
length-push-le c (l ∷ ls) = omega arith

length-labels-pos : (s : Text) → 1 ≤ length (labels s)
unfolding labels
length-labels-pos [] = omega arith
length-labels-pos (c ∷ s) = ground (arith, length-push-pos c (labels s))

dotted-labels : (s : Text) → has_code b'.' s ≡ true → 2 ≤ length (labels s)
unfolding labels has_code
dotted-labels [] h = cc
dotted-labels (c ∷ s) h =
    ground (arith, length-labels-pos s, dotted-labels s, length-push-le c (labels s))

lowered-lower : (s : Text) → every is_lower (lower s) ≡ true
unfolding every lower_code
lowered-lower [] = refl
lowered-lower (c ∷ s) = ground (arith, lowered-lower s)

lowered-strip_marker :
    (name : Text) (exact : Bool)
    → every is_lower name ≡ true
    → every is_lower (strip_marker name exact).0 ≡ true
unfolding strip_marker
lowered-strip_marker name exact h = ground (arith, every-lstrip (λ c. eqb c b'.') is_lower name h)

no_first-strip_marker :
    (name : Text) (exact : Bool) → starts_with b'.' (strip_marker name exact).0 ≡ false
unfolding strip_marker
no_first-strip_marker name exact = ground (arith, head_is-lstrip (λ c. eqb c b'.') name)

-- What `clean_name` makes of the text, before its tests.
trimmed_name : Text → Bool → Text
trimmed_name raw exact =
    rstrip (λ c. eqb c b'.') (strip_marker (lower (strip is_space raw)) exact).0

trimmed_name-IsDomainName :
    (raw : Text) (exact : Bool)
    → is_matchable (trimmed_name raw exact) ≡ true
    → IsDomainName (trimmed_name raw exact)
unfolding trimmed_name is_matchable
trimmed_name-IsDomainName raw exact h =
    let marked = (strip_marker (lower (strip is_space raw)) exact).0 in
    let name = trimmed_name raw exact in
    record {
      dotted = dotted-labels name (ground arith);
      filled = ground (
        arith,
        filled-labels name,
        head_is-rstrip (λ c. eqb c b'.') (λ c. eqb c b'.') marked
            (no_first-strip_marker (lower (strip is_space raw)) exact),
        last_is-rstrip (λ c. eqb c b'.') marked,
      );
      lowered =
          every-rstrip _ is_lower marked
            (lowered-strip_marker _ exact (lowered-lower (strip is_space raw)));
      unspaced = ground arith;
    }

clean_name_lem :
    (raw : Text) (exact : Bool)
    → clean_name raw exact ≡ (
        if is_matchable (trimmed_name raw exact)
        then some (
          trimmed_name raw exact,
          if (strip_marker (lower (strip is_space raw)) exact).1 then dom_exact else dom_suffix,
        )
        else none)
unfolding clean_name trimmed_name
clean_name_lem raw exact = refl

pub clean_name-IsDomainName :
    (raw : Text) (exact : Bool) {name : Text} {kind : ℕ}
    → clean_name raw exact ≡ some (name, kind)
    → IsDomainName name
clean_name-IsDomainName raw exact {name} {kind} h =
    elim (Bool-cases (is_matchable (trimmed_name raw exact))) [
      | inl ok ↦
          subst (λ (r : Text × ℕ). IsDomainName r.0)
            (some-injective _ _ (rw (clean_name_lem, ok) at h))
            (trimmed_name-IsDomainName raw exact ok)
      | inr bad ↦ absurd (cc (rw (clean_name_lem, bad) at h))
    ]

-- Every stored rule has a name that some host name can match.
abbrev pub HasNames : Builder → Type 0
HasNames b = All (λ r. IsDomainName r.name) b.domains

add_domain-HasNames :
    (name : Text) (kind app_id tier confidence license_tier : ℕ) (b : Builder)
    → IsDomainName name
    → HasNames b
    → HasNames (add_domain name kind app_id tier confidence license_tier b).1
unfolding add_domain
add_domain-HasNames name kind app_id tier confidence license_tier b ok h =
    elim (Bool-cases (contains (name, kind, app_id) b.seen)) [
      | inl old ↦ rw old h
      | inr new ↦ rw new (All-snoc (λ r. IsDomainName r.name) b.domains _ h ok)
    ]

-- Whatever text a source gives, `domain` keeps every stored name one of at least two labels, none
-- of them empty, with no capital letter and no blank.
pub domain-HasNames :
    (raw : Text) (app_id : ℕ) (exact : Bool) (tier confidence license_tier : ℕ) (b : Builder)
    → HasNames b
    → HasNames (domain raw app_id exact tier confidence license_tier b).1
unfolding domain
domain-HasNames raw app_id exact tier confidence license_tier b h =
    elim (Option-cases (clean_name raw exact)) [
      | inl refused ↦ rw (refused, domain) h
      | inr ((name, kind), e) ↦
          rw (e, domain)
            (add_domain-HasNames name kind app_id tier confidence license_tier b
              (clean_name-IsDomainName raw exact e) h)
    ]
