-- ===== src/Crawler/Run.antt =====
-- `Pipeline.run` of src/core/pipeline.py up to the jobs: the choice of the sources, and the rates that
-- `_run_source` sets. `domain_of` is urllib.parse, with a result in lower case, and an argument.
pub mod Rates
mod Tests
use ngfw_policy.Prelude.{
  ℕ, Bool, true, false, not, List, [], ◌∷◌, map, Option, none, some, Text, select, contains, is_nil,
  if◌then◌else◌, list_eq, nat_eq,
}
use ngfw_policy.Measure.Sets.{set_of, minus, union}
use ngfw_policy.Crawler.Config.{SourceConfig, CrawlConfig, all_urls, enabled_sources}
use ngfw_policy.Crawler.RateLimiter.{RateLimiter, set_domain_rps}

-- The sources of a run, and the wanted names that are none of them.
unfoldable pub select_sources : CrawlConfig → List Text → List SourceConfig × List Text
unfolding enabled_sources select contains minus union
select_sources c only =
    let enabled : List SourceConfig = enabled_sources c in
    let wanted : List SourceConfig = select (λ (s : SourceConfig). contains s.name only) enabled in
    if is_nil only
    then (enabled, [])
    else (wanted, minus (set_of only) (map (λ (s : SourceConfig). s.name) wanted))

module _ (domain_of : Text → Text) where
  -- `for url in source_config.all_urls`
  unfoldable pub set_rates : ℕ → List Text → RateLimiter → RateLimiter
  unfolding set_domain_rps
  set_rates rps [] l = l
  set_rates rps (url ∷ urls) l =
      set_rates rps urls
        (if is_nil (domain_of url) then l else set_domain_rps (domain_of url) rps l)

  unfoldable pub set_source_rates : Option ℕ → List Text → RateLimiter → RateLimiter
  unfolding set_rates
  set_source_rates none urls l = l
  set_source_rates (some rps) urls l = set_rates rps urls l

  -- The rates of a source, if it has one.
  unfoldable pub configure : SourceConfig → RateLimiter → RateLimiter
  unfolding set_source_rates all_urls
  configure s l = set_source_rates s.rps (all_urls s) l
