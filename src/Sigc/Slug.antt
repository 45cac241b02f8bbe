-- ===== src/Sigc/Slug.antt =====
-- `_slug` of tools/sigc.py and the separator-free key of `Builder.app`. The two regular
-- expressions are loops over the characters: the first replaces each run outside [a-z0-9] by one
-- hyphen, the second deletes what lies outside [a-z0-9]. `lower` is that of ASCII: of the letters
-- outside it, Python maps U+212A to k and U+0130 to i with a dot, and no other to [a-z0-9].
pub mod Shape
pub mod Key
use ngfw_policy.Prelude.{
  ℕ, Bool, true, false, not, ◌&&◌, ◌||◌, List, [], ◌∷◌, Text, codes, lower, lower_code, strip, leb,
  eqb, is_nil, is_nil, select, if◌then◌else◌, lstrip, rstrip,
}

-- `[a-z0-9]`
unfoldable pub is_alnum : ℕ → Bool
is_alnum c = leb b'a' c && leb c b'z' || leb b'0' c && leb c b'9'

-- `re.sub(r"[^a-z0-9]+", "-", s)`; the flag says that the run before was already replaced
unfoldable pub hyphenate : Bool → Text → Text
unfolding is_alnum
hyphenate in_run [] = []
hyphenate in_run (c ∷ s) =
    let rest = hyphenate (not (is_alnum c)) s in
    if is_alnum c then c ∷ rest else if in_run then rest else b'-' ∷ rest

abbrev pub unknown : Text
unknown = codes "unknown"

unfoldable pub slug : Text → Text
unfolding hyphenate strip lower_code
slug name =
    let out = strip (λ c. eqb c b'-') (hyphenate false (lower name)) in
    if is_nil out then unknown else out

-- `re.sub(r"[^a-z0-9]", "", slug)`
unfoldable pub app_key : Text → Text
unfolding select is_alnum
app_key = select is_alnum
