-- ===== src/Crawler/Run/Rates.antt =====
-- The domains of a source get its rate.
use mathlib.Core.Path.{subst}
use ngfw_policy.Prelude.{
  ℕ, ◌≡◌, refl, sym, ap, ◌∙◌, true, false, List, [], ◌∷◌, none, some, Text, Dict, get, get-put,
  contains, lower, is_nil, if◌then◌else◌, if_cases, ◌==◌, eq_refl, list_beq_iff, list_eq, nat_eq,
  Bool-cases, inl, inr, arith,
}
use ngfw_policy.Crawler.Config.{SourceConfig, all_urls}
use ngfw_policy.Crawler.RateLimiter.{Bucket, RateLimiter, pop, bucket_for, set_domain_rps}
use ngfw_policy.Crawler.Run.{set_rates, set_source_rates, configure}

get-pop : (k d : Text) (b : Dict Text Bucket) → get d (pop k b) ≡ (if k == d then none else get d b)
unfolding get pop
get-pop k d [] = ground arith
get-pop k d ((j, v) ∷ b) =
    ground (arith, get-pop k d b, list_beq_iff j k, list_beq_iff j d, list_beq_iff k d)

-- A domain without a bucket whose override is a rate.
record IsRated (d : Text) (r : ℕ) (l : RateLimiter) : Type 0 where
  no_bucket : get d l.buckets ≡ none
  override : get d l.overrides ≡ some r

set-IsRated :
    (d : Text) (r : ℕ) (l : RateLimiter) → lower d ≡ d → IsRated d r (set_domain_rps d r l)
unfolding set_domain_rps
set-IsRated d r l low = record {
  no_bucket = rw (low, get-pop d d l.buckets, eq_refl d) refl;
  override = rw (low, get-put d d r l.overrides, eq_refl d) refl;
}

keep-IsRated :
    (d k : Text) (r : ℕ) (l : RateLimiter) → IsRated d r l → IsRated d r (set_domain_rps k r l)
unfolding set_domain_rps
keep-IsRated d k r l h = record {
  no_bucket = ground (arith, get-pop (lower k) d l.buckets, h.no_bucket);
  override = ground (arith, get-put (lower k) d r l.overrides, h.override);
}

IsRated-bucket :
    (d : Text) (r unit now : ℕ) (l : RateLimiter)
    → IsRated d r l
    → (bucket_for unit d now l).rps ≡ r
unfolding bucket_for
IsRated-bucket d r unit now l h = rw (h.no_bucket, h.override, bucket_for) refl

module _ (domain_of : Text → Text)
    (low : (url : Text) → lower (domain_of url) ≡ domain_of url) where
  keep_all :
      (d : Text) (r : ℕ) (urls : List Text) (l : RateLimiter)
      → IsRated d r l
      → IsRated d r (set_rates domain_of r urls l)
  unfolding set_rates
  keep_all d r [] l h = h
  keep_all d r (url ∷ urls) l h = keep_all d r urls _ (
      if_cases (IsRated d r) (is_nil (domain_of url)) l (set_domain_rps (domain_of url) r l)
        (λ _. h) (λ _. keep-IsRated d (domain_of url) r l h))

  set_rates-IsRated :
      (url : Text) (r : ℕ) (urls : List Text) (l : RateLimiter)
      → contains url urls ≡ true
      → is_nil (domain_of url) ≡ false
      → IsRated (domain_of url) r (set_rates domain_of r urls l)
  unfolding set_rates contains
  set_rates-IsRated url r [] l m named = cc
  set_rates-IsRated url r (u ∷ urls) l m named = elim (Bool-cases (u == url)) [
    | inr other ↦ set_rates-IsRated url r urls _ (ground (arith, other)) named
    | inl same ↦ keep_all (domain_of url) r urls _ (
        if_cases (IsRated (domain_of url) r) (is_nil (domain_of u)) l
          (set_domain_rps (domain_of u) r l)
          (λ unnamed. absurd (cc (unnamed, named, (list_beq_iff u url).0 same)))
          (λ _.
            subst (λ (v : Text). IsRated (domain_of url) r (set_domain_rps (domain_of v) r l))
              (sym ((list_beq_iff u url).0 same)) (set-IsRated (domain_of url) r l (low url))))
  ]

  -- Every URL of a source with a rate is limited by it, whatever buckets and overrides there were: the
  -- bucket of its domain, where it has one, has that rate behind the set-up of the source.
  pub configure-rate :
      (s : SourceConfig) (r : ℕ) (url : Text) (unit now : ℕ) (l : RateLimiter)
      → s.rps ≡ some r
      → contains url (all_urls s) ≡ true
      → is_nil (domain_of url) ≡ false
      → (bucket_for unit (domain_of url) now (configure domain_of s l)).rps ≡ r
  unfolding configure
  configure-rate s r url unit now l e m named =
      ap
        (λ o.
          (bucket_for unit (domain_of url) now (set_source_rates domain_of o (all_urls s) l)).rps)
        e
      ∙ IsRated-bucket (domain_of url) r unit now _ (set_rates-IsRated url r (all_urls s) l m named)
