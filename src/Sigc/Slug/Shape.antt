-- ===== src/Sigc/Slug/Shape.antt =====
-- The shape of a slug, and what the normalizer does to a name that has it.
use ngfw_policy.Prelude.{
  ℕ, Bool, true, false, not, ◌&&◌, ◌||◌, [], ◌∷◌, ◌≡◌, refl, inl, inr, Text, lower, lower_code,
  strip, eqb, is_nil, every, head_is, last_is, has_double, arith, if◌then◌else◌, every-lstrip,
  every-rstrip, has_double-lstrip, has_double-rstrip, head_is-strip, last_is-strip, strip-eq_self,
  starts_with, ends_with, Bool-cases,
}
use ngfw_policy.Sigc.Slug.{is_alnum, hyphenate, unknown, slug}

unfoldable pub is_slug_code : ℕ → Bool
is_slug_code c = is_alnum c || eqb c b'-'

-- Lower-case letters, digits and single hyphens between them, and not empty.
pub record IsSlug (s : Text) : Type 0 where
  pub nonempty : is_nil s ≡ false
  pub plain : every is_slug_code s ≡ true
  pub no_first : starts_with b'-' s ≡ false
  pub no_last : ends_with b'-' s ≡ false
  pub single : has_double b'-' s ≡ false

plain-hyphenate : (r : Bool) (s : Text) → every is_slug_code (hyphenate r s) ≡ true
unfolding every is_slug_code hyphenate
plain-hyphenate r [] = refl
plain-hyphenate r (c ∷ s) = ground (arith, plain-hyphenate (not (is_alnum c)) s)

no_first-hyphenate : (s : Text) → starts_with b'-' (hyphenate true s) ≡ false
unfolding head_is hyphenate
no_first-hyphenate [] = refl
no_first-hyphenate (c ∷ s) = ground (arith, no_first-hyphenate s)

single-hyphenate : (r : Bool) (s : Text) → has_double b'-' (hyphenate r s) ≡ false
unfolding head_is has_double hyphenate
single-hyphenate r [] = refl
single-hyphenate r (c ∷ s) =
    ground (arith, single-hyphenate (not (is_alnum c)) s, no_first-hyphenate s)

-- The slug before the replacement of an empty one.
unfoldable pub trimmed : Text → Text
trimmed name = strip (λ c. eqb c b'-') (hyphenate false (lower name))

pub trimmed-IsSlug : (name : Text) → is_nil (trimmed name) ≡ false → IsSlug (trimmed name)
unfolding trimmed
trimmed-IsSlug name h = record {
  nonempty = h;
  plain =
      unfold strip in every-rstrip _ _ _ (every-lstrip _ _ _ (plain-hyphenate false (lower name)));
  no_first = head_is-strip _ _;
  no_last = last_is-strip _ _;
  single =
      unfold strip in
      has_double-rstrip _ _ _ (has_double-lstrip _ _ _ (single-hyphenate false (lower name)));
}

unknown-IsSlug : IsSlug unknown
unfolding every is_slug_code is_alnum head_is last_is has_double
unknown-IsSlug = record {
  nonempty = refl;
  plain = refl;
  no_first = refl;
  no_last = refl;
  single = refl;
}

pub slug_lem : (name : Text) → slug name ≡ (if is_nil (trimmed name) then unknown else trimmed name)
unfolding slug trimmed
slug_lem name = refl

-- Whatever the name, its slug is not empty, holds only lower-case letters, digits and hyphens,
-- neither begins nor ends with a hyphen, and has no two hyphens in a row.
pub slug-IsSlug : (name : Text) → IsSlug (slug name)
slug-IsSlug name = elim (Bool-cases (is_nil (trimmed name))) [
  | inl empty ↦ rw (slug_lem, empty) unknown-IsSlug
  | inr full ↦ rw (slug_lem, full) (trimmed-IsSlug name full)
]

lower_code-eq_self : (c : ℕ) → is_slug_code c ≡ true → lower_code c ≡ c
unfolding lower_code is_slug_code is_alnum
lower_code-eq_self c h = ground arith

pub lower-eq_self : (s : Text) → every is_slug_code s ≡ true → lower s ≡ s
unfolding every
lower-eq_self [] h = refl
lower-eq_self (c ∷ s) h = ground (arith, lower_code-eq_self c, lower-eq_self s)

hyphenate-eq_self :
    (r : Bool) (s : Text)
    → every is_slug_code s ≡ true
    → has_double b'-' s ≡ false
    → (r && starts_with b'-' s) ≡ false
    → hyphenate r s ≡ s
unfolding every is_slug_code head_is has_double hyphenate
hyphenate-eq_self r [] h k n = refl
hyphenate-eq_self r (c ∷ s) h k n = ground (arith, hyphenate-eq_self (not (is_alnum c)) s)

-- A text that has the shape of a slug is its own slug.
pub slug-eq_self : (s : Text) → IsSlug s → slug s ≡ s
unfolding trimmed
slug-eq_self s h = rw (
  slug_lem,
  lower-eq_self s h.plain,
  hyphenate-eq_self false s h.plain h.single refl,
  strip-eq_self _ s h.no_first h.no_last,
  h.nonempty,
)

-- The slug of a slug is the slug itself.
pub slug_idem : (name : Text) → slug (slug name) ≡ slug name
slug_idem name = slug-eq_self (slug name) (slug-IsSlug name)
