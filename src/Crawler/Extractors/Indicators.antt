-- ===== src/Crawler/Extractors/Indicators.antt =====
-- src/extractors/indicator_extractor.py. The matches of the regular expressions in a text are given
-- by an argument, in their order, and so are `ip_address` and `ip_network` of `ipaddress`, whose
-- `none` is a ValueError. A score is counted in tenths, and the sorting of the lists is left out.
pub mod Disjoint
mod Tests
use Prim.Native.Nat.{pred}
use ngfw_policy.Prelude.{
  ℕ, zero, suc, ◌-◌, Bool, true, false, not, ◌&&◌, ◌||◌, List, [], ◌∷◌, ◌++◌, map, Option, none,
  some, Text, codes, lower, lower_code, contains, add, has_code, select, rstrip, is_nil, length,
  leb, eqb, if◌then◌else◌, list_eq, nat_eq,
}
use ngfw_policy.Sigc.Load.Netify.{is_prefix}
use ngfw_policy.Measure.Sets.{union, set_of, minus}

-- `s.replace(bad, good)`; the number is how many characters of an occurrence are still to skip
unfoldable pub replace : Text → Text → ℕ → Text → Text
unfolding is_prefix
replace bad good skip [] = []
replace bad good (suc skip) (c ∷ s) = replace bad good skip s
replace bad good zero (c ∷ s) = elim (is_prefix bad (c ∷ s)) [
  | true ↦ good ++ replace bad good (pred (length bad)) s
  | false ↦ c ∷ replace bad good 0 s
]

-- `s.upper()`
unfoldable pub upper : Text → Text
upper = map (λ c. if leb b'a' c && leb c b'z' then c - 32 else c)

-- `_REFANG`
abbrev pub refang_table : List (Text × Text)
refang_table =
    (codes "[.]", codes ".")
    ∷ (codes "(.)", codes ".")
    ∷ (codes "{.}", codes ".")
    ∷ (codes " dot ", codes ".")
    ∷ (codes "[:]", codes ":")
    ∷ (codes "[://]", codes "://")
    ∷ (codes "hxxps", codes "https")
    ∷ (codes "hxxp", codes "http")
    ∷ (codes "[at]", codes "@")
    ∷ (codes "(at)", codes "@")
    ∷ []

unfoldable pub refang_with : List (Text × Text) → Text → Text
unfolding replace upper
refang_with [] out = out
refang_with ((bad, good) ∷ table) out =
    refang_with table (replace (upper bad) good 0 (replace bad good 0 out))

-- `refang`
unfoldable pub refang : Text → Text
unfolding refang_with
refang = refang_with refang_table

-- `DOMAIN_NOISE`
abbrev pub domain_noise : List Text
domain_noise =
    codes "example.com"
    ∷ codes "www.w3.org"
    ∷ codes "schema.org"
    ∷ codes "github.com"
    ∷ codes "www.github.com"
    ∷ codes "twitter.com"
    ∷ codes "x.com"
    ∷ codes "linkedin.com"
    ∷ codes "www.linkedin.com"
    ∷ codes "youtube.com"
    ∷ codes "nvd.nist.gov"
    ∷ codes "cve.mitre.org"
    ∷ codes "cwe.mitre.org"
    ∷ codes "first.org"
    ∷ []

-- The matches in a text; behind each CVSS mention, the score in its window, if there is one.
pub record Matches : Type 0 where
  pub cves : List Text
  pub ipv4 : List Text
  pub ipv6 : List Text
  pub sha256 : List Text
  pub sha1 : List Text
  pub md5 : List Text
  pub domains : List Text
  pub urls : List Text
  pub windows : List (Option ℕ)

pub record Indicators : Type 0 where
  pub cves : List Text
  pub cvss_max : Option ℕ
  pub ipv4 : List Text
  pub ipv6 : List Text
  pub cidrs : List Text
  pub domains : List Text
  pub urls : List Text
  pub md5 : List Text
  pub sha1 : List Text
  pub sha256 : List Text

-- `_cvss_scores`
unfoldable pub cvss_scores : List (Option ℕ) → List ℕ
cvss_scores [] = []
cvss_scores (none ∷ windows) = cvss_scores windows
cvss_scores (some value ∷ windows) =
    let rest = cvss_scores windows in if leb value 100 then value ∷ rest else rest

abbrev pub larger : ℕ → Option ℕ → Option ℕ
larger n none = some n
larger n (some m) = some (if leb n m then m else n)

-- `max(scores) if scores else None`
unfoldable pub max_score : List ℕ → Option ℕ
max_score [] = none
max_score (n ∷ ns) = larger n (max_score ns)

-- A valid address goes to the addresses or, with a slash, to the prefixes.
unfoldable pub place : Option Text → List Text × List Text → List Text × List Text
unfolding add has_code
place none found = found
place (some n) (ipv4, cidrs) =
    if is_nil n
    then (ipv4, cidrs)
    else if has_code b'/' n
    then (ipv4, add n cidrs)
    else (add n ipv4, cidrs)

module _ (ip_address ip_network : Text → Option Text) where
  -- `_valid_ipv4`, and the same test for IPv6
  unfoldable pub valid_ip : Text → Option Text
  unfolding has_code
  valid_ip token = if has_code b'/' token then ip_network token else ip_address token

  unfoldable pub sort_ipv4 : List Text → List Text × List Text → List Text × List Text
  unfolding valid_ip place
  sort_ipv4 [] found = found
  sort_ipv4 (token ∷ tokens) found = sort_ipv4 tokens (place (valid_ip token) found)

  unfoldable pub collect_ipv6 : List Text → List Text → List Text
  unfolding valid_ip add
  collect_ipv6 [] found = found
  collect_ipv6 (token ∷ tokens) found =
      collect_ipv6 tokens (elim (valid_ip token) [ none ↦ found | some n ↦ add n found ])

  -- The result of `extract`, from the matches in the refanged text.
  unfoldable pub indicators_of : Matches → Indicators
  unfolding upper lower_code sort_ipv4 collect_ipv6 union minus contains select cvss_scores
      max_score rstrip has_code
  indicators_of m =
      let (ipv4, cidrs) = sort_ipv4 m.ipv4 ([], []) in
      let sha256 : List Text = set_of (map lower m.sha256) in
      let sha1 : List Text = minus (set_of (map lower m.sha1)) sha256 in
      record {
        cves = set_of (map upper m.cves);
        cvss_max = max_score (cvss_scores m.windows);
        ipv4 = ipv4;
        ipv6 = collect_ipv6 m.ipv6 [];
        cidrs = cidrs;
        domains = set_of (select (λ d. not (contains d domain_noise)) (map lower m.domains));
        urls = set_of (map (rstrip (λ c. has_code c (codes ".,;"))) m.urls);
        md5 = minus (set_of (map lower m.md5)) (union sha256 sha1);
        sha1 = sha1;
        sha256 = sha256;
      }

  -- `extract`: the extracted text where there is one, else the page
  unfoldable pub extract_indicators : (Text → Matches) → Text → Text → Indicators
  unfolding refang indicators_of
  extract_indicators find_all html text =
      indicators_of (find_all (refang (if is_nil text then html else text)))
