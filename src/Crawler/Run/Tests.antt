-- ===== src/Crawler/Run/Tests.antt =====
-- A run over two sources.
use ngfw_policy.Prelude.{
  ◌≡◌, refl, true, false, [], ◌∷◌, none, some, Text, codes, list_beq, contains, lower_code, list_eq,
  nat_eq,
}
use ngfw_policy.Crawler.Config.{SourceConfig, all_urls}
use ngfw_policy.Crawler.RateLimiter.{RateLimiter, bucket_for}
use ngfw_policy.Crawler.Run.{select_sources, configure}
use ngfw_policy.Crawler.Run.Rates.{configure-rate}

abbrev slow : SourceConfig
slow = record {
  name = codes "slow";
  enabled = true;
  url = codes "http://a/1";
  urls = [];
  rps = some 2;
  max_items = 50;
}

abbrev off : SourceConfig
off = record {
  name = codes "off";
  enabled = false;
  url = [];
  urls = [];
  rps = none;
  max_items = 50;
}

disabled_is_missing :
    select_sources (record { sources = slow ∷ off ∷ [] }) (codes "off" ∷ codes "slow" ∷ [])
    ≡ (slow ∷ [], codes "off" ∷ [])
unfolding select_sources list_beq
disabled_is_missing = refl

-- Every URL is of one host.
abbrev one_host : Text → Text
one_host url = codes "a"

abbrev limiter : RateLimiter
limiter = record {
  default_rps = 5;
  burst = 1;
  buckets = (codes "a", record { rps = 5; burst = 1; tokens = 0; updated_at = 3 }) ∷ [];
  overrides = [];
}

configure-rate_example : (bucket_for 10 (codes "a") 7 (configure one_host slow limiter)).rps ≡ 2
configure-rate_example =
    configure-rate one_host (λ url. unfold lower_code in refl) slow 2 (codes "http://a/1") 10 7
      limiter refl (unfold all_urls contains list_beq in refl) refl
