-- ===== src/Crawler/Pipeline.antt =====
-- `Pipeline._process` of src/core/pipeline.py as a state machine. A job is one URL of a source; it
-- moves between the points at which the coroutine awaits, and a schedule says which job moves next
-- and what the awaited call gives: the answer of robots.txt, or the outcome of the fetch with the
-- status of the extraction. A job whose exception leaves `_process` is at its end, as the other jobs
-- go on. `is_fetchable` and `canonicalize` of src/utils/url.py are arguments; a
-- URL on which `canonicalize` raises ends its job as one that is not fetchable does.
pub mod Accounts
pub mod Interleavings
pub mod Progress
mod Tests
use ngfw_policy.Prelude.{
  ℕ, zero, suc, ◌+◌, ◌-◌, Bool, true, false, not, ◌&&◌, List, [], ◌∷◌, ◌++◌, Option, none, some,
  Text, Dict, get, put, contains, map, take, length, ltb, if◌then◌else◌, nat_eq, list_eq,
}
use ngfw_policy.Crawler.Contract.{ExtractionStatus, success, partial, fail}

-- `CrawlStats`
pub record CrawlStats : Type 0 where
  pub discovered : ℕ
  pub fetched : ℕ
  pub failed : ℕ
  pub skipped_robots : ℕ
  pub skipped_duplicate : ℕ
  pub extracted_success : ℕ
  pub extracted_partial : ℕ
  pub extracted_fail : ℕ
  pub per_source : Dict Text ℕ

-- What the coroutines share: the counters, `_seen`, and the permits of `_semaphore` in use. The
-- program does not count `raised`, the pages on which `_build_record` raised.
pub record Crawl : Type 0 where
  pub stats : CrawlStats
  pub seen : List Text
  pub busy : ℕ
  pub raised : ℕ

pub record Job : Type 0 where
  pub source_name : Text
  pub url : Text

-- Where a job stands: before the gates, behind the dedup gate, waiting for the semaphore, fetching,
-- and at its end.
pub data Phase : Type 0 where
  pending : Job → Phase
  claimed : Job → Phase
  allowed : Job → Phase
  fetching : Job → Phase
  done : Phase

-- What `source.fetch` gives: SKIPPED, a result that is not ok, or a page with its extraction, or one
-- for which `build_extractor` or the extraction raises.
pub data Outcome : Type 0 where
  skipped : Outcome
  broken : Outcome
  page : ExtractionStatus → Outcome
  unbuilt : Outcome

pub data Event : Type 0 where
  proceed : Event
  robots_answer : Bool → Event
  fetch_result : Outcome → Event

-- `self.stats.per_source.get(name, 0) + 1`
unfoldable pub count_source : Text → Dict Text ℕ → Dict Text ℕ
count_source name d = put name ((elim (get name d) [ none ↦ 0 | some n ↦ n ]) + 1) d

-- The counter of `_build_record`.
unfoldable pub count_extracted : ExtractionStatus → CrawlStats → CrawlStats
count_extracted success s = record s { extracted_success = s.extracted_success + 1 }
count_extracted partial s = record s { extracted_partial = s.extracted_partial + 1 }
count_extracted fail s = record s { extracted_fail = s.extracted_fail + 1 }

-- `fetched` and `per_source`
abbrev pub count_fetched : Text → CrawlStats → CrawlStats
count_fetched name s = record s {
  fetched = s.fetched + 1;
  per_source = count_source name s.per_source;
}

-- The counters behind the fetch; where `_build_record` raises, the page is counted already.
unfoldable pub settle : Text → Outcome → CrawlStats → CrawlStats
unfolding count_extracted
settle name skipped s = s
settle name broken s = record s { failed = s.failed + 1 }
settle name (page e) s = count_extracted e (count_fetched name s)
settle name unbuilt s = count_fetched name s

abbrev pub exceptions : Outcome → ℕ
exceptions unbuilt = 1
exceptions _ = 0

module _ (is_fetchable : Text → Bool) (canonicalize : Text → Text) (respect_robots : Bool)
    (max_concurrency : ℕ) where
  -- The gates up to the claim under the write lock.
  unfoldable pub gate : Job → Crawl → Phase × Crawl
  unfolding contains
  gate j c =
      if not (is_fetchable j.url)
      then (done, c)
      else if contains (canonicalize j.url) c.seen
      then (
        done,
        record c { stats = record c.stats { skipped_duplicate = c.stats.skipped_duplicate + 1 } },
      )
      else (claimed j, record c { seen = c.seen ++ canonicalize j.url ∷ [] })

  unfoldable pub ask_robots : Job → Bool → Crawl → Phase × Crawl
  ask_robots j can_fetch c =
      if respect_robots && not can_fetch
      then (
        done,
        record c { stats = record c.stats { skipped_robots = c.stats.skipped_robots + 1 } },
      )
      else (allowed j, c)

  -- `async with self._semaphore`: a job waits while no permit is free
  unfoldable pub enter : Job → Crawl → Phase × Crawl
  enter j c =
      if ltb c.busy max_concurrency
      then (fetching j, record c { busy = c.busy + 1 })
      else (allowed j, c)

  -- One move of a job; an event that it does not wait for leaves it where it is.
  unfoldable pub advance : Event → Phase → Crawl → Phase × Crawl
  unfolding gate ask_robots enter settle
  advance proceed (pending j) c = gate j c
  advance (robots_answer can_fetch) (claimed j) c = ask_robots j can_fetch c
  advance proceed (allowed j) c = enter j c
  advance (fetch_result r) (fetching j) c = (
    done,
    record c {
      busy = c.busy - 1;
      stats = settle j.source_name r c.stats;
      raised = c.raised + exceptions r;
    },
  )
  advance e p c = (p, c)

  -- The move of the job at a position.
  unfoldable pub move : Event → ℕ → List Phase → Crawl → List Phase × Crawl
  unfolding advance
  move e i [] c = ([], c)
  move e zero (p ∷ ps) c = let (p', c') = advance e p c in (p' ∷ ps, c')
  move e (suc i) (p ∷ ps) c = let (ps', c') = move e i ps c in (p ∷ ps', c')

  -- An interleaving of the jobs.
  unfoldable pub run_schedule : List (ℕ × Event) → List Phase → Crawl → List Phase × Crawl
  unfolding move
  run_schedule [] ps c = (ps, c)
  run_schedule ((i, e) ∷ es) ps c = let (ps', c') = move e i ps c in run_schedule es ps' c'

-- The jobs of a source, whose list is cut to `max_items`.
unfoldable pub jobs_of : Text → ℕ → List Text → List Phase
jobs_of name max_items urls =
    map (λ url. pending (record { source_name = name; url = url })) (take max_items urls)

-- The state behind `discover`, before the jobs run.
unfoldable pub discover : List Text → Crawl → Crawl
discover urls c = record c {
  stats = record c.stats { discovered = c.stats.discovered + length urls };
}

abbrev pub no_stats : CrawlStats
no_stats = record {
  discovered = 0;
  fetched = 0;
  failed = 0;
  skipped_robots = 0;
  skipped_duplicate = 0;
  extracted_success = 0;
  extracted_partial = 0;
  extracted_fail = 0;
  per_source = [];
}

-- `Pipeline.__init__`
abbrev pub new_crawl : Crawl
new_crawl = record { stats = no_stats; seen = []; busy = 0; raised = 0 }
