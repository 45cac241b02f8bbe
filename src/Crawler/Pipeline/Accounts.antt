-- ===== src/Crawler/Pipeline/Accounts.antt =====
-- The counters of a crawl add up, under every interleaving of its jobs.
use ngfw_policy.Prelude.{
  ℕ, zero, suc, ◌+◌, ◌-◌, ◌≤◌, ◌≡◌, refl, Bool, true, false, List, [], ◌∷◌, ◌++◌, Text, Dict, get,
  put, IsUnique, length, arith, nat_eq, list_eq,
}
use ngfw_policy.Crawler.Contract.{success, partial, fail}
use ngfw_policy.Crawler.Pipeline.{
  Crawl, Job, Phase, pending, claimed, allowed, fetching, done, Outcome, skipped, broken, page,
  unbuilt, exceptions, count_source, count_extracted, settle, jobs_of, discover, new_crawl,
}

abbrev pub bit : Bool → ℕ
bit true = 1
bit false = 0

abbrev pub is_pending : Phase → Bool
is_pending (pending j) = true
is_pending _ = false

abbrev pub is_fetching : Phase → Bool
is_fetching (fetching j) = true
is_fetching _ = false

-- Claimed and not yet at its end.
abbrev pub is_active : Phase → Bool
is_active (claimed j) = true
is_active (allowed j) = true
is_active (fetching j) = true
is_active _ = false

-- How many jobs stand in a phase.
unfoldable pub tally : (Phase → Bool) → List Phase → ℕ
tally q [] = 0
tally q (p ∷ ps) = bit (q p) + tally q ps

-- The sum of the counts of a dict.
unfoldable pub total : Dict Text ℕ → ℕ
total [] = 0
total ((k, n) ∷ d) = n + total d

total-put : (name : Text) (d : Dict Text ℕ) → total (count_source name d) ≡ total d + 1
unfolding total count_source put get
total-put name [] = refl
total-put name ((k, n) ∷ d) = ground (arith, total-put name d)

-- What holds at every moment of a crawl, with the jobs at `ps`: no canonical URL is claimed twice,
-- every page has one source, and one extraction status unless its extraction raised, the permits in use are the jobs that fetch
-- and at most `max`, and every claimed URL and every duplicate belongs to a discovered URL.
pub record IsAccounted (max : ℕ) (ps : List Phase) (c : Crawl) : Type 0 where
  pub unique : IsUnique c.seen
  pub extracted :
      c.stats.extracted_success + c.stats.extracted_partial + c.stats.extracted_fail + c.raised
      ≡ c.stats.fetched
  pub sources : total c.stats.per_source ≡ c.stats.fetched
  pub permits : tally is_fetching ps ≡ c.busy
  pub bounded : c.busy ≤ max
  pub claims :
      tally is_active ps + c.stats.skipped_robots + c.stats.failed + c.stats.fetched ≤ length c.seen
  pub urls : tally is_pending ps + c.stats.skipped_duplicate + length c.seen ≤ c.stats.discovered

-- The same with the numbers of the jobs that fetch, are active and are pending.
pub record Totals (max f a d : ℕ) (c : Crawl) : Type 0 where
  pub unique : IsUnique c.seen
  pub extracted :
      c.stats.extracted_success + c.stats.extracted_partial + c.stats.extracted_fail + c.raised
      ≡ c.stats.fetched
  pub sources : total c.stats.per_source ≡ c.stats.fetched
  pub permits : f ≡ c.busy
  pub bounded : c.busy ≤ max
  pub claims : a + c.stats.skipped_robots + c.stats.failed + c.stats.fetched ≤ length c.seen
  pub urls : d + c.stats.skipped_duplicate + length c.seen ≤ c.stats.discovered

-- One job in a phase, with the numbers of the other jobs.
abbrev pub Accounts : ℕ → ℕ → ℕ → ℕ → Phase → Crawl → Type 0
Accounts max f a d p c =
    Totals max (bit (is_fetching p) + f) (bit (is_active p) + a) (bit (is_pending p) + d) c

-- The jobs of a list, with the numbers of the other jobs.
abbrev pub Among : ℕ → ℕ → ℕ → ℕ → List Phase → Crawl → Type 0
Among max f a d ps c =
    Totals max (tally is_fetching ps + f) (tally is_active ps + a) (tally is_pending ps + d) c

pub Totals-cong :
    (max : ℕ) {f a d f' a' d' : ℕ} {c : Crawl}
    → f ≡ f'
    → a ≡ a'
    → d ≡ d'
    → Totals max f a d c
    → Totals max f' a' d' c
Totals-cong max ef ea ed h = record {
  unique = h.unique;
  extracted = h.extracted;
  sources = h.sources;
  permits = omega (arith, ef, h.permits);
  bounded = h.bounded;
  claims = omega (arith, ea, h.claims);
  urls = omega (arith, ed, h.urls);
}

pub settle-Accounts :
    (max f a d : ℕ) (j : Job) (r : Outcome) (c : Crawl)
    → Accounts max f a d (fetching j) c
    → Accounts max f a d done (record c {
      busy = c.busy - 1;
      stats = settle j.source_name r c.stats;
      raised = c.raised + exceptions r;
    })
unfolding settle count_extracted
settle-Accounts max f a d j skipped c h = record {
  unique = h.unique;
  extracted = omega (arith, h.extracted);
  sources = h.sources;
  permits = omega (arith, h.permits);
  bounded = omega (arith, h.bounded);
  claims = omega (arith, h.claims);
  urls = h.urls;
}
settle-Accounts max f a d j broken c h = record {
  unique = h.unique;
  extracted = omega (arith, h.extracted);
  sources = h.sources;
  permits = omega (arith, h.permits);
  bounded = omega (arith, h.bounded);
  claims = omega (arith, h.claims);
  urls = h.urls;
}
settle-Accounts max f a d j (page success) c h = record {
  unique = h.unique;
  extracted = omega (arith, h.extracted);
  sources = omega (arith, total-put j.source_name c.stats.per_source, h.sources);
  permits = omega (arith, h.permits);
  bounded = omega (arith, h.bounded);
  claims = omega (arith, h.claims);
  urls = h.urls;
}
settle-Accounts max f a d j (page partial) c h = record {
  unique = h.unique;
  extracted = omega (arith, h.extracted);
  sources = omega (arith, total-put j.source_name c.stats.per_source, h.sources);
  permits = omega (arith, h.permits);
  bounded = omega (arith, h.bounded);
  claims = omega (arith, h.claims);
  urls = h.urls;
}
settle-Accounts max f a d j (page fail) c h = record {
  unique = h.unique;
  extracted = omega (arith, h.extracted);
  sources = omega (arith, total-put j.source_name c.stats.per_source, h.sources);
  permits = omega (arith, h.permits);
  bounded = omega (arith, h.bounded);
  claims = omega (arith, h.claims);
  urls = h.urls;
}
settle-Accounts max f a d j unbuilt c h = record {
  unique = h.unique;
  extracted = omega (arith, h.extracted);
  sources = omega (arith, total-put j.source_name c.stats.per_source, h.sources);
  permits = omega (arith, h.permits);
  bounded = omega (arith, h.bounded);
  claims = omega (arith, h.claims);
  urls = h.urls;
}

pub IsAccounted-Among :
    {max : ℕ} {ps : List Phase} {c : Crawl} → IsAccounted max ps c → Among max 0 0 0 ps c
IsAccounted-Among h = record {
  unique = h.unique;
  extracted = h.extracted;
  sources = h.sources;
  permits = omega (arith, h.permits);
  bounded = h.bounded;
  claims = omega (arith, h.claims);
  urls = omega (arith, h.urls);
}

pub Among-IsAccounted :
    {max : ℕ} {ps : List Phase} {c : Crawl} → Among max 0 0 0 ps c → IsAccounted max ps c
Among-IsAccounted h = record {
  unique = h.unique;
  extracted = h.extracted;
  sources = h.sources;
  permits = omega (arith, h.permits);
  bounded = h.bounded;
  claims = omega (arith, h.claims);
  urls = omega (arith, h.urls);
}

tally-append :
    (q : Phase → Bool) (ps rs : List Phase) → tally q (ps ++ rs) ≡ tally q ps + tally q rs
unfolding tally
tally-append q [] rs = omega arith
tally-append q (p ∷ ps) rs = rw (tally-append q ps rs) (omega arith)

-- Fresh jobs are pending, and no more than the URLs.
tally-jobs :
    (name : Text) (n : ℕ) (urls : List Text)
    → (tally is_fetching (jobs_of name n urls) ≡ 0)
      × (tally is_active (jobs_of name n urls) ≡ 0)
      × (tally is_pending (jobs_of name n urls) ≤ length urls)
unfolding jobs_of tally
tally-jobs name zero urls = (refl, refl, omega arith)
tally-jobs name (suc n) [] = (refl, refl, omega arith)
tally-jobs name (suc n) (u ∷ urls) =
    let (f, a, d) = tally-jobs name n urls in (omega (arith, f), omega (arith, a), omega (arith, d))

-- A source that is discovered joins a crawl: with its URLs counted and its jobs, cut to
-- `max_items`, beside the others, the accounts add up as before.
pub discover-IsAccounted :
    (max : ℕ) (name : Text) (max_items : ℕ) (urls : List Text) (ps : List Phase) (c : Crawl)
    → IsAccounted max ps c
    → IsAccounted max (ps ++ jobs_of name max_items urls) (discover urls c)
unfolding discover
discover-IsAccounted max name max_items urls ps c h =
    let jobs = jobs_of name max_items urls in
    let (f, a, d) = tally-jobs name max_items urls in
    record {
      unique = h.unique;
      extracted = h.extracted;
      sources = h.sources;
      permits = omega (arith, tally-append is_fetching ps jobs, f, h.permits);
      bounded = h.bounded;
      claims = omega (arith, tally-append is_active ps jobs, a, h.claims);
      urls = omega (arith, tally-append is_pending ps jobs, d, h.urls);
    }

pub new_crawl-IsAccounted : (max : ℕ) → IsAccounted max [] new_crawl
unfolding tally total
new_crawl-IsAccounted max = record {
  unique = tt;
  extracted = refl;
  sources = refl;
  permits = refl;
  bounded = omega arith;
  claims = omega arith;
  urls = omega arith;
}
