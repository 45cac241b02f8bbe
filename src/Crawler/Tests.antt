-- ===== src/Crawler/Tests.antt =====
-- Runs of the crawler on small inputs, and its theorems at such inputs.
use ngfw_policy.Prelude.{
  ℕ, ◌<◌, ◌≤◌, ◌≡◌, ◌↔◌, refl, Bool, true, false, not, List, [], ◌∷◌, ◌++◌, none, Text, Dict, codes,
  every, get, put, list_beq, strip, is_space, list_eq, nat_eq,
}
use ngfw_policy.Crawler.Contract.{
  success, fail, partial, FieldValue, null, text, items, ExtractionConfig, has_field,
  compute_quality_score, evaluate_extraction, reaches, missing_of,
}
use ngfw_policy.Crawler.Contract.Status.{quality_score-bounded, evaluate_extraction-contract}
use ngfw_policy.Prelude.{◌+◌, ◌-◌, ◌*◌, if◌then◌else◌, none, some, Option, arith, is_nil}
use ngfw_policy.Crawler.HttpSource.{Response, answer, fetch, ok, IsConsistent, fetch-IsConsistent}
use ngfw_policy.Crawler.Robots.{fresh, get_parser, get_parser-cached}
use ngfw_policy.Crawler.Config.{
  CrawlConfig, load_config, load_uncached, IsCoherent, load_config-IsCoherent,
}
use ngfw_policy.Crawler.Discovery.{Entry, discover_feeds}
use ngfw_policy.Crawler.RateLimiter.{Bucket, RateLimiter, acquire_all}
use ngfw_policy.Crawler.RateLimiter.Rate.{acquire_all-rate}
use ngfw_policy.Crawler.Pipeline.{
  Crawl, Event, proceed, robots_answer, fetch_result, page, Phase, run_schedule, jobs_of, discover,
  new_crawl, count_source,
}
use ngfw_policy.Crawler.Pipeline.Accounts.{IsAccounted, new_crawl-IsAccounted, discover-IsAccounted}
use ngfw_policy.Crawler.Pipeline.Interleavings.{run_schedule-IsAccounted}

abbrev article : Dict Text FieldValue
article = (codes "title", text (codes "News")) ∷ (codes "tags", items 0) ∷ (codes "body", null) ∷ []

abbrev article_config : ExtractionConfig
article_config = record {
  required_fields = codes "title" ∷ codes "body" ∷ [];
  optional_fields = [];
  min_numerator = 1;
  min_denominator = 2;
}

article_is_partial : (evaluate_extraction article article_config).status ≡ partial
unfolding evaluate_extraction list_beq strip is_space has_field missing_of
article_is_partial = refl

quality_score-bounded_example :
    let (score, missing) = compute_quality_score article (codes "title" ∷ codes "body" ∷ []) none in
    (0 < score.weight) × (score.earned ≤ score.weight)
quality_score-bounded_example =
    quality_score-bounded article (codes "title" ∷ codes "body" ∷ []) none

evaluate_extraction-contract_example :
    let r = evaluate_extraction article article_config in
    ((r.status ≡ success) ↔ (
      (every (has_field article) article_config.required_fields ≡ true)
      × (reaches r.quality_score article_config ≡ true)))
    × ((r.status ≡ fail)
        ↔ (every (λ f. not (has_field article f)) article_config.required_fields ≡ true))
evaluate_extraction-contract_example = evaluate_extraction-contract article article_config refl

abbrev feed_urls : List Text
feed_urls = codes "http://a/1" ∷ codes "http://a/2" ∷ codes "http://a/1" ∷ codes "mailto:x" ∷ []

abbrev is_http : Text → Bool
is_http [] = false
is_http (c ∷ s) = list_beq (c ∷ []) (codes "h")

abbrev same_url : Text → Text
same_url url = url

abbrev feed_jobs : List Phase
feed_jobs = jobs_of (codes "feed") 10 feed_urls

abbrev feed_crawl : Crawl
feed_crawl = discover feed_urls new_crawl

abbrev feed_schedule : List (ℕ × Event)
feed_schedule =
    (0, proceed)
    ∷ (1, proceed)
    ∷ (2, proceed)
    ∷ (3, proceed)
    ∷ (1, robots_answer true)
    ∷ (0, robots_answer false)
    ∷ (1, proceed)
    ∷ (1, fetch_result (page partial))
    ∷ []

feed_stats :
    (run_schedule is_http same_url true 1 feed_schedule feed_jobs feed_crawl).1.stats ≡ record {
      discovered = 4;
      fetched = 1;
      failed = 0;
      skipped_robots = 1;
      skipped_duplicate = 1;
      extracted_success = 0;
      extracted_partial = 1;
      extracted_fail = 0;
      per_source = (codes "feed", 1) ∷ [];
    }
unfolding run_schedule jobs_of discover list_beq count_source put get
feed_stats = refl

abbrev feed_accounts : IsAccounted 1 feed_jobs feed_crawl
feed_accounts =
    discover-IsAccounted 1 (codes "feed") 10 feed_urls [] new_crawl (new_crawl-IsAccounted 1)

discover-IsAccounted_example :
    IsAccounted 1 ([] ++ jobs_of (codes "feed") 10 feed_urls) (discover feed_urls new_crawl)
discover-IsAccounted_example =
    discover-IsAccounted 1 (codes "feed") 10 feed_urls [] new_crawl (new_crawl-IsAccounted 1)

run_schedule-IsAccounted_example :
    let (ps, c) = run_schedule is_http same_url true 1 feed_schedule feed_jobs feed_crawl in
    IsAccounted 1 ps c
run_schedule-IsAccounted_example =
    run_schedule-IsAccounted is_http same_url true 1 feed_schedule feed_jobs feed_crawl
      feed_accounts

-- A parser that knows an empty configuration, and a file that never changes.
abbrev parse_empty : Text → Option CrawlConfig
parse_empty content = if is_nil content then none else some (record { sources = [] })

abbrev one_content : Text → ℕ → Text
one_content path mtime = codes "sources: []"

load_config-IsCoherent_example :
    let (loaded, cache) =
      load_config parse_empty (codes "a.yaml") (some (5, codes "sources: []")) [] in
    (loaded ≡ load_uncached parse_empty (some (5, codes "sources: []")))
    × IsCoherent parse_empty one_content cache
load_config-IsCoherent_example =
    load_config-IsCoherent parse_empty one_content (codes "a.yaml") 5 []
      (λ path c mtime h. unfold get in cc)

abbrev entry : Text → Entry
entry title = record { title = title; published = []; summary = [] }

abbrev feeds : List (List (Text × Entry))
feeds =
    ((codes "http://a/1", entry (codes "one")) ∷ ([], entry []) ∷ [])
    ∷ ((codes "http://a/1", entry (codes "again")) ∷ (codes "http://a/2", entry []) ∷ [])
    ∷ []

discovered_links : (discover_feeds 2 [] feeds).urls ≡ codes "http://a/1" ∷ codes "http://a/2" ∷ []
unfolding discover_feeds list_beq
discovered_links = refl

-- A bucket of one token, a token being ten parts, that gains one part per tick.
abbrev bucket : Bucket
bucket = record { rps = 1; burst = 1; tokens = 10; updated_at = 100 }

abbrev readings : List (ℕ × ℕ)
readings = (100, 100) ∷ (103, 110) ∷ []

last_token : (acquire_all 10 readings bucket).tokens ≡ 0
unfolding acquire_all
last_token = refl

acquire_all-rate_example :
    let b = acquire_all 10 readings bucket in
    (100 ≤ b.updated_at) × (2 * 10 + b.tokens ≤ 10 + (b.updated_at - 100) * 1)
unfolding acquire_all
acquire_all-rate_example =
    acquire_all-rate 10 readings bucket (omega arith)
      (omega arith, omega arith, omega arith, (omega arith, omega arith, omega arith, tt))

abbrev limiter : RateLimiter
limiter = record { default_rps = 1; burst = 1; buckets = (codes "a", bucket) ∷ []; overrides = [] }

abbrev blocked_page : Response
blocked_page = record { status_code = 403; url = codes "http://a"; text = codes "no" }

abbrev full_page : Response
full_page = record { status_code = 200; url = codes "http://a"; text = codes "yes" }

fallback_is_ok : ok (fetch true (answer blocked_page) (some (answer full_page))) ≡ true
unfolding fetch ok
fallback_is_ok = refl

fetch-IsConsistent_example :
    IsConsistent (fetch true (answer blocked_page) (some (answer full_page)))
fetch-IsConsistent_example = fetch-IsConsistent true (answer blocked_page) (some (answer full_page))

-- A parser that is its text, where the empty one allows all.
abbrev same_text : Text → Text
same_text body = body

nothing_cached : fresh {P = Text} [] same_text 3600 (codes "http://a") 10 [] ≡ none
unfolding fresh
nothing_cached = refl

get_parser-cached_example :
    let (parser, cache) =
      get_parser [] same_text 3600 (codes "http://a") 10 12 (some (200, codes "Disallow: /")) [] in
    get_parser [] same_text 3600 (codes "http://a") 100 101 none cache ≡ (parser, cache)
get_parser-cached_example =
    get_parser-cached [] same_text 3600 (codes "http://a") 10 12 100 101
      (some (200, codes "Disallow: /")) none [] nothing_cached (omega arith)
