-- ===== src/Crawler/Pipeline/Tests.antt =====
-- The progress of a crawl at two jobs.
use ngfw_policy.Prelude.{
  ℕ, ◌*◌, ◌≤◌, ◌≡◌, Bool, true, List, [], ◌∷◌, Text, codes, length, All, list_eq, nat_eq, arith, ap,
  contains,
}
use ngfw_policy.Crawler.Pipeline.{
  Crawl, Event, proceed, Phase, done, run_schedule, jobs_of, discover, new_crawl, advance, move,
  gate,
}
use ngfw_policy.Crawler.Pipeline.Accounts.{new_crawl-IsAccounted, discover-IsAccounted}
use ngfw_policy.Crawler.Pipeline.Progress.{schedule-ends, run_schedule-finishes}

abbrev two_urls : List Text
two_urls = codes "http://a/1" ∷ codes "http://a/2" ∷ []

abbrev any_url : Text → Bool
any_url url = true

abbrev same_url : Text → Text
same_url url = url

schedule-ends_example :
    length {A = ℕ × Event} ((1, proceed) ∷ []) ≤ 4 * length (jobs_of (codes "feed") 10 two_urls)
unfolding jobs_of move advance gate contains
schedule-ends_example =
    schedule-ends any_url same_url true 1 ((1, proceed) ∷ []) (jobs_of (codes "feed") 10 two_urls)
      new_crawl
      (λ e. absurd (omega (arith, ap (λ (s : List Phase × Crawl). length s.1.seen) e)), tt)

run_schedule-finishes_example :
    (es : List (ℕ × Event)) × All
      (λ (p : Phase). p ≡ done)
      (run_schedule any_url same_url true 1 es
        (jobs_of (codes "feed") 10 two_urls)
        (discover two_urls new_crawl)).0
run_schedule-finishes_example =
    run_schedule-finishes any_url same_url true 1 (jobs_of (codes "feed") 10 two_urls)
      (discover two_urls new_crawl) (omega arith)
      (discover-IsAccounted 1 (codes "feed") 10 two_urls [] new_crawl (new_crawl-IsAccounted 1))
