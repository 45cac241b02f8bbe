-- ===== src/Crawler/Url.antt =====
-- src/utils/url.py on the parts that `urlparse` gives: `urlparse`, `parse_qsl` and `urlencode` of
-- urllib.parse are not the repository's, and a URL is its scheme, host, port, path and query pairs.
pub mod Idempotent
mod Tests
use ngfw_policy.Prelude.{
  ℕ, ◌-◌, Bool, true, false, not, ◌&&◌, ◌||◌, List, [], ◌∷◌, ◌++◌, Option, none, some, Text, codes,
  lower, lower_code, contains, select, length, is_nil, ends_with, strip, is_space, rstrip, eqb, ltb,
  if◌then◌else◌, list_eq, nat_eq, ◌==◌,
}

-- `parsed.port`, whose `bad_port` is the `ValueError` of a port that is no number up to 65535.
pub data Port : Type 0 where
  no_port : Port
  some_port : ℕ → Port
  bad_port : Port

-- What `urlparse` gives of a URL.
pub record Parsed : Type 0 where
  pub scheme : Text
  pub hostname : Option Text
  pub port : Port
  pub path : Text
  pub query : List (Text × Text)

-- What `urlunparse` is given, with the query as its pairs.
pub record Canonical : Type 0 where
  pub scheme : Text
  pub host : Text
  pub port : Port
  pub path : Text
  pub query : List (Text × Text)

-- `TRACKING_PARAMS`
abbrev pub tracking_params : List Text
tracking_params =
    codes "utm_source"
    ∷ codes "utm_medium"
    ∷ codes "utm_campaign"
    ∷ codes "utm_term"
    ∷ codes "utm_content"
    ∷ codes "gclid"
    ∷ codes "fbclid"
    ∷ codes "mc_cid"
    ∷ codes "mc_eid"
    ∷ codes "ref"
    ∷ codes "ref_src"
    ∷ []

-- `ALLOWED_SCHEMES`
abbrev pub allowed_schemes : List Text
allowed_schemes = codes "http" ∷ codes "https" ∷ []

abbrev is_default : Text → ℕ → Bool
is_default scheme p = scheme == codes "http" && eqb p 80 || scheme == codes "https" && eqb p 443

-- The port that is written behind the host: port 0 counts as none.
unfoldable pub kept_port : Text → ℕ → Port
kept_port scheme p = if not (eqb p 0) && not (is_default scheme p) then some_port p else no_port

-- The path without trailing slashes, the root but for one.
unfoldable pub clean_path : Text → Text
unfolding rstrip
clean_path path =
    let p : Text = if is_nil path then codes "/" else path in
    if ltb 1 (length p) && ends_with b'/' p then rstrip (λ c. eqb c b'/') p else p

unfoldable pub is_untracked : Text × Text → Bool
unfolding contains lower_code
is_untracked (k, v) = not (contains (lower k) tracking_params)

unfoldable pub canonical_with : Parsed → Port → Canonical
unfolding clean_path is_untracked select lower_code
canonical_with u port = record {
  scheme = lower u.scheme;
  host = lower (elim u.hostname [ none ↦ [] | some h ↦ h ]);
  port = port;
  path = clean_path u.path;
  query = select is_untracked u.query;
}

-- With what `parsed.port` gives, which raises for a bad port.
unfoldable pub canonical_at : Parsed → Port → Option Canonical
unfolding canonical_with kept_port
canonical_at u no_port = some (canonical_with u no_port)
canonical_at u (some_port p) = some (canonical_with u (kept_port (lower u.scheme) p))
canonical_at u bad_port = none

-- `canonicalize`, up to the printing of the result
unfoldable pub canonicalize : Parsed → Option Canonical
unfolding canonical_at
canonicalize u = canonical_at u u.port

-- `canonicalize` on the text of a URL. `urlparse` with `parse_qsl`, and `urlunparse` with `urlencode`
-- and the port behind the host, are arguments.
unfoldable pub canonicalize_url : (Text → Parsed) → (Canonical → Text) → Text → Option Text
unfolding canonicalize strip
canonicalize_url urlparse urlunparse url = elim (canonicalize (urlparse (strip is_space url))) [
  | none ↦ none
  | some c ↦ some (urlunparse c)
]

-- `is_fetchable`, where `none` is the `ValueError` of `urlparse`
unfoldable pub is_fetchable : Option Parsed → Bool
unfolding contains lower_code
is_fetchable none = false
is_fetchable (some u) =
    contains (lower u.scheme) allowed_schemes
    && (elim u.hostname [ none ↦ false | some h ↦ not (is_nil h) ])
