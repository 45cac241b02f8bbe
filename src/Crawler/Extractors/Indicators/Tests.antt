-- ===== src/Crawler/Extractors/Indicators/Tests.antt =====
-- A defanged text, and its indicators.
use ngfw_policy.Prelude.{◌≡◌, refl, [], ◌∷◌, Option, none, some, Text, codes, list_beq}
use ngfw_policy.Crawler.Extractors.Indicators.{Matches, refang, indicators_of}
use ngfw_policy.Crawler.Extractors.Indicators.Disjoint.{AreSorted, indicators_of-AreSorted}

refanged : refang (codes "hxxps[:]//evil[.]ru HXXP") ≡ codes "https://evil.ru http"
unfolding refang
refanged = refl

abbrev same_ip : Text → Option Text
same_ip token = some token

abbrev found : Matches
found = record {
  cves = codes "cve-2024-1234" ∷ [];
  ipv4 = codes "1.2.3.4" ∷ codes "10.0.0.0/8" ∷ [];
  ipv6 = [];
  sha256 = codes "AA" ∷ [];
  sha1 = codes "aa" ∷ codes "bb" ∷ [];
  md5 = codes "bb" ∷ codes "cc" ∷ [];
  domains = codes "GitHub.com" ∷ codes "evil.ru" ∷ [];
  urls = [];
  windows = some 98 ∷ some 310 ∷ none ∷ [];
}

hashes_apart : (indicators_of same_ip same_ip found).md5 ≡ codes "cc" ∷ []
unfolding indicators_of list_beq
hashes_apart = refl

indicators_of-AreSorted_example : AreSorted (indicators_of same_ip same_ip found)
indicators_of-AreSorted_example = indicators_of-AreSorted same_ip same_ip found
