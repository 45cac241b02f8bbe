-- ===== src/Sigc/Slug/Key.antt =====
-- The key of a slug: what is left of the name when every separator is gone.
use ngfw_policy.Prelude.{
  Bool, true, false, not, [], ◌∷◌, ◌≡◌, refl, inl, inr, Text, lower, strip, eqb, is_nil, every,
  head_is, arith, if◌then◌else◌, lstrip, rstrip, Bool-cases, ◌∙◌,
}
use ngfw_policy.Sigc.Slug.{is_alnum, hyphenate, unknown, slug, app_key}
use ngfw_policy.Sigc.Slug.Shape.{IsSlug, is_slug_code, trimmed, trimmed-IsSlug, slug_lem}

key-hyphenate : (r : Bool) (s : Text) → app_key (hyphenate r s) ≡ app_key s
unfolding app_key hyphenate
key-hyphenate r [] = refl
key-hyphenate r (c ∷ s) = ground (arith, key-hyphenate (not (is_alnum c)) s)

key-lstrip : (s : Text) → app_key (lstrip (λ c. eqb c b'-') s) ≡ app_key s
unfolding app_key lstrip
key-lstrip [] = refl
key-lstrip (c ∷ s) = ground (arith, key-lstrip s)

key-rstrip : (s : Text) → app_key (rstrip (λ c. eqb c b'-') s) ≡ app_key s
unfolding app_key rstrip
key-rstrip [] = refl
key-rstrip (c ∷ s) = ground (arith, key-rstrip s)

key-trimmed : (name : Text) → app_key (trimmed name) ≡ app_key (lower name)
unfolding trimmed strip
key-trimmed name = key-rstrip _ ∙ key-lstrip _ ∙ key-hyphenate false (lower name)

is_nil-key : (s : Text) → IsSlug s → is_nil (app_key s) ≡ false
unfolding app_key is_slug_code head_is every
is_nil-key [] h = cc (h.nonempty)
is_nil-key (c ∷ s) h = ground (arith, h.plain, h.no_first)

is_nil-key_of_nil : (s : Text) → is_nil s ≡ true → is_nil (app_key s) ≡ true
unfolding app_key
is_nil-key_of_nil [] h = refl
is_nil-key_of_nil (c ∷ s) h = cc

unknown_key : app_key unknown ≡ unknown
unfolding app_key
unknown_key = refl

-- The key of a name's slug is the letters and digits of the name in lower case; of a name with no
-- letter and no digit it is "unknown".
pub key-slug :
    (name : Text)
    → app_key (slug name)
      ≡ (if is_nil (app_key (lower name)) then unknown else app_key (lower name))
key-slug name = elim (Bool-cases (is_nil (trimmed name))) [
  | inl empty ↦
      rw (slug_lem, empty, ← key-trimmed name, is_nil-key_of_nil (trimmed name) empty) unknown_key
  | inr full ↦
      rw (slug_lem, full, ← key-trimmed name, is_nil-key (trimmed name) (trimmed-IsSlug name full))
]
