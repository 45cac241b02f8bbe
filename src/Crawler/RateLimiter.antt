-- ===== src/Crawler/RateLimiter.antt =====
-- src/utils/rate_limiter.py. Time is counted in ticks of the monotonic clock and tokens in parts of
-- which `unit` make one, so that `rps` is a number of parts per tick; the clock's readings are
-- arguments. A lock is held over the whole of an acquisition, so acquisitions do not interleave.
pub mod Rate
use ngfw_policy.Prelude.{
  ℕ, ◌+◌, ◌-◌, ◌*◌, ◌/◌, ltb, Bool, List, [], ◌∷◌, Option, none, some, Text, Dict, get, put, leb,
  lower, min, lower, lower_code, if◌then◌else◌, ◌==◌, nat_eq, list_eq,
}

-- `DomainBucket`
pub record Bucket : Type 0 where
  pub rps : ℕ
  pub burst : ℕ
  pub tokens : ℕ
  pub updated_at : ℕ

-- `RateLimiter`
pub record RateLimiter : Type 0 where
  pub default_rps : ℕ
  pub burst : ℕ
  pub buckets : Dict Text Bucket
  pub overrides : Dict Text ℕ

-- Removes a key, `dict.pop(key, None)`.
unfoldable pub pop : Text → Dict Text Bucket → Dict Text Bucket
pop key [] = []
pop key ((k, b) ∷ d) = let rest = pop key d in if k == key then rest else (k, b) ∷ rest

module _ (unit : ℕ) where
  -- `_refill`
  unfoldable pub refill : ℕ → Bucket → Bucket
  refill now b = record b {
    tokens = min (b.burst * unit) (b.tokens + (now - b.updated_at) * b.rps);
    updated_at = now;
  }

  -- `deficit / self.rps if self.rps > 0 else 0.0`, in whole ticks, rounded up
  unfoldable pub wait_for : ℕ → ℕ → ℕ
  wait_for deficit rps = if ltb 0 rps then (deficit + rps - 1) / rps else 0

  -- `DomainBucket.acquire`: `now` is the first reading of the clock, `later` the one behind the
  -- sleep; the result is the wait.
  unfoldable pub acquire : ℕ → ℕ → Bucket → ℕ × Bucket
  unfolding refill wait_for
  acquire now later b =
      let b' = refill now b in
      if leb unit b'.tokens
      then (0, record b' { tokens = b'.tokens - unit })
      else let b'' = refill later b' in
        (wait_for (unit - b'.tokens) b.rps, record b'' { tokens = b''.tokens - unit })

  -- `bucket_for`, which makes a full bucket for a new domain
  unfoldable pub bucket_for : Text → ℕ → RateLimiter → Bucket
  unfolding get
  bucket_for domain now l = elim (get domain l.buckets) [
    | some b ↦ b
    | none ↦ record {
      rps = elim (get domain l.overrides) [ none ↦ l.default_rps | some r ↦ r ];
      burst = l.burst;
      tokens = l.burst * unit;
      updated_at = now;
    }
  ]

  -- `RateLimiter.acquire` on a URL of the domain
  unfoldable pub acquire_for : Text → ℕ → ℕ → RateLimiter → ℕ × RateLimiter
  unfolding bucket_for acquire put
  acquire_for domain now later l =
      let (waited, b) = acquire now later (bucket_for domain now l) in
      (waited, record l { buckets = put domain b l.buckets })

  -- The acquisitions of one bucket, each with its two readings.
  unfoldable pub acquire_all : List (ℕ × ℕ) → Bucket → Bucket
  unfolding acquire
  acquire_all [] b = b
  acquire_all ((now, later) ∷ rs) b = acquire_all rs (acquire now later b).1

-- `set_domain_rps`
unfoldable pub set_domain_rps : Text → ℕ → RateLimiter → RateLimiter
unfolding pop put lower_code
set_domain_rps domain rps l = record l {
  overrides = put (lower domain) rps l.overrides;
  buckets = pop (lower domain) l.buckets;
}
