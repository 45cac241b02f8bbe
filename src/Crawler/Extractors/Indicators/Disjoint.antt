-- ===== src/Crawler/Extractors/Indicators/Disjoint.antt =====
-- The classes of indicators.
use ngfw_policy.Prelude.{
  ℕ, ◌≤◌, ◌≡◌, refl, true, false, not, ◌||◌, List, [], ◌∷◌, map, Option, none, some, Text, lower,
  contains, add, has_code, select, All, All-snoc, ◌++◌, is_nil, leb, leb→le, if_cases, list_eq,
  nat_eq, arith,
}
use ngfw_policy.Measure.Sets.{union, set_of, minus, contains-union, contains-select}
use ngfw_policy.Crawler.Extractors.Indicators.{
  Matches, Indicators, domain_noise, valid_ip, place, larger, sort_ipv4, cvss_scores, max_score,
  indicators_of,
}

-- Hashes of one class only, no host that every advisory names, addresses apart from prefixes, and
-- a score of at most 10.0.
pub record AreSorted (r : Indicators) : Type 0 where
  pub sha1_apart : (h : Text) → contains h r.sha256 ≡ true → contains h r.sha1 ≡ false
  pub md5_apart :
      (h : Text) → (contains h r.sha256 || contains h r.sha1) ≡ true → contains h r.md5 ≡ false
  pub no_noise : (d : Text) → contains d domain_noise ≡ true → contains d r.domains ≡ false
  pub addresses : All (λ n. has_code b'/' n ≡ false) r.ipv4
  pub prefixes : All (λ n. has_code b'/' n ≡ true) r.cidrs
  pub score : (n : ℕ) → r.cvss_max ≡ some n → n ≤ 100

contains_nil : (d : Text) → contains d [] ≡ false
unfolding contains
contains_nil d = refl

add-All : (P : Text → Type 0) (a : Text) (xs : List Text) → All P xs → P a → All P (add a xs)
unfolding add
add-All P a xs h p =
    if_cases (All P) (contains a xs) xs (xs ++ a ∷ []) (λ _. h) (λ _. All-snoc P xs a h p)

abbrev AreApart : List Text × List Text → Type 0
AreApart (ipv4, cidrs) =
    All (λ n. has_code b'/' n ≡ false) ipv4 × All (λ n. has_code b'/' n ≡ true) cidrs

place-AreApart :
    (n : Option Text) (found : List Text × List Text) → AreApart found → AreApart (place n found)
unfolding place
place-AreApart none found h = h
place-AreApart (some n) (ipv4, cidrs) h =
    if_cases AreApart (is_nil n) (ipv4, cidrs) _ (λ _. h)
      (λ _.
        if_cases AreApart (has_code b'/' n) (ipv4, add n cidrs) (add n ipv4, cidrs)
          (λ slash. (h.0, add-All (λ n. has_code b'/' n ≡ true) n cidrs h.1 slash))
          (λ plain. (add-All (λ n. has_code b'/' n ≡ false) n ipv4 h.0 plain, h.1)))

scores-le : (windows : List (Option ℕ)) → All (λ n. n ≤ 100) (cvss_scores windows)
unfolding cvss_scores
scores-le [] = tt
scores-le (none ∷ windows) = scores-le windows
scores-le (some v ∷ windows) =
    if_cases (All (λ n. n ≤ 100)) (leb v 100) (v ∷ cvss_scores windows) (cvss_scores windows)
      (λ small. (leb→le v 100 small, scores-le windows)) (λ _. scores-le windows)

larger-le :
    (x : ℕ) (o : Option ℕ) (n : ℕ)
    → x ≤ 100
    → ((m : ℕ) → o ≡ some m → m ≤ 100)
    → larger x o ≡ some n
    → n ≤ 100
larger-le x none n h f e = ground arith
larger-le x (some m) n h f e = ground (arith, f m refl)

max_score-le : (xs : List ℕ) (n : ℕ) → All (λ n. n ≤ 100) xs → max_score xs ≡ some n → n ≤ 100
unfolding max_score
max_score-le [] n h e = cc
max_score-le (x ∷ xs) n h e = larger-le x (max_score xs) n h.0 (λ m e'. max_score-le xs m h.1 e') e

module _ (ip_address ip_network : Text → Option Text) where
  sort_ipv4-AreApart :
      (tokens : List Text) (found : List Text × List Text)
      → AreApart found
      → AreApart (sort_ipv4 ip_address ip_network tokens found)
  unfolding sort_ipv4
  sort_ipv4-AreApart [] found h = h
  sort_ipv4-AreApart (token ∷ tokens) found h =
      sort_ipv4-AreApart tokens (place (valid_ip ip_address ip_network token) found)
        (place-AreApart (valid_ip ip_address ip_network token) found h)

  -- The classes of the indicators of any text are apart: no hash stands in two classes, no host of
  -- the noise list is a domain, the entries of `ipv4` have no slash and those of `cidrs` have one, and
  -- the score is at most 10.0. Nothing is said of `ipv6`, which takes addresses and prefixes alike.
  pub indicators_of-AreSorted : (m : Matches) → AreSorted (indicators_of ip_address ip_network m)
  unfolding indicators_of
  indicators_of-AreSorted m =
      let sha256 : List Text = set_of (map lower m.sha256) in
      let sha1s : List Text = set_of (map lower m.sha1) in
      let sha1 : List Text = minus sha1s sha256 in
      let md5s : List Text = set_of (map lower m.md5) in
      let domains : List Text = map lower m.domains in
      let apart = sort_ipv4-AreApart m.ipv4 ([], []) (tt, tt) in
      record {
        sha1_apart = λ h here.
            unfold minus in
            ground (arith, here, contains-select (λ x. not (contains x sha256)) h sha1s);
        md5_apart = λ h here.
            unfold minus in
            ground (
              arith,
              here,
              contains-select (λ x. not (contains x (union sha256 sha1))) h md5s,
              contains-union h sha256 sha1,
            );
        no_noise = λ d here. ground (
          arith,
          here,
          contains-union d [] (select (λ x. not (contains x domain_noise)) domains),
          contains-select (λ x. not (contains x domain_noise)) d domains,
          contains_nil d,
        );
        addresses = apart.0;
        prefixes = apart.1;
        score = λ n e. max_score-le (cvss_scores m.windows) n (scores-le m.windows) e;
      }
