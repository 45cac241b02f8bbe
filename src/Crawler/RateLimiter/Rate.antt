-- ===== src/Crawler/RateLimiter/Rate.antt =====
-- A bucket hands out tokens no faster than its rate, and domains do not share buckets.
use native.Mathlib.Nat.{div-lt_iff_lt-mul}
use ngfw_policy.Prelude.{
  ℕ, ◌+◌, ◌-◌, ◌*◌, ◌/◌, ◌<◌, ◌≤◌, ◌≡◌, refl, false, List, [], ◌∷◌, Text, get, get-put, leb, leb→le,
  min, length, ◌==◌, nat_eq, list_eq, arith, Bool-cases, inl, inr,
}
use ngfw_policy.Crawler.RateLimiter.{
  Bucket, RateLimiter, refill, wait_for, acquire, acquire_all, acquire_for,
}

module _ (unit : ℕ) where
  -- The readings are in order, and a sleep lasts at least as long as `acquire` asks for.
  abbrev pub IsPaced : List (ℕ × ℕ) → Bucket → Type 0
  IsPaced [] b = Unit
  IsPaced ((now, later) ∷ rs) b =
      (b.updated_at ≤ now)
      × (now ≤ later)
      × ((acquire unit now later b).0 ≤ later - now)
      × IsPaced rs (acquire unit now later b).1

  elapsed : (t n m r : ℕ) → t ≤ n → n ≤ m → (n - t) * r + (m - n) * r ≡ (m - t) * r
  elapsed t n m r h k =
      let whole : m - t ≡ (n - t) + (m - n) = omega (arith, h, k) in rw whole (grind arith)

  -- A sleep as long as the wait makes up for the deficit.
  wait_for_lem :
      (deficit r slept : ℕ) → 0 < r → wait_for unit deficit r ≤ slept → deficit ≤ slept * r
  unfolding wait_for
  wait_for_lem deficit r slept some_rate h =
      let short : (deficit + r - 1) / r < slept + 1 = ground (arith, h, some_rate) in
      let rounded : deficit + r - 1 < (slept + 1) * r = (div-lt_iff_lt-mul some_rate).0 short in
      let spread : (slept + 1) * r ≡ slept * r + r = grind arith in
      omega (arith, some_rate, rounded, spread)

  acquire_lem :
      (now later : ℕ) (b : Bucket)
      → b.updated_at ≤ now
      → now ≤ later
      → 0 < b.rps
      → (acquire unit now later b).0 ≤ later - now
      → let b' = (acquire unit now later b).1 in
        (b'.rps ≡ b.rps)
        × (b.updated_at ≤ b'.updated_at)
        × (unit + b'.tokens ≤ b.tokens + (b'.updated_at - b.updated_at) * b.rps)
  unfolding acquire refill
  acquire_lem now later b h k some_rate slept =
      let t = min (b.burst * unit) (b.tokens + (now - b.updated_at) * b.rps) in
      elim (Bool-cases (leb unit t)) [
        | inl enough ↦ rw enough (refl, h, omega (arith, leb→le unit t enough))
        | inr short ↦
            let whole = elapsed b.updated_at now later b.rps h k in
            let wait : wait_for unit (unit - t) b.rps ≤ later - now =
              rw (short, acquire) at slept in
            let enough = wait_for_lem (unit - t) b.rps (later - now) some_rate wait in
            rw short (refl, omega (arith, h, k), omega (arith, whole, enough))
      ]

  -- Where the rate is not 0, the clock does not run back and every sleep lasts as long as
  -- `acquire` asks for, any sequence of acquisitions of one bucket hands out, with the tokens that are left, no more than the bucket had
  -- with what its rate yields in the time that has passed.
  pub acquire_all-rate :
      (rs : List (ℕ × ℕ)) (b : Bucket)
      → 0 < b.rps
      → IsPaced rs b
      → let b' = acquire_all unit rs b in
        (b.updated_at ≤ b'.updated_at)
        × (length rs * unit + b'.tokens ≤ b.tokens + (b'.updated_at - b.updated_at) * b.rps)
  unfolding acquire_all
  acquire_all-rate [] b some_rate h = (omega arith, omega arith)
  acquire_all-rate ((now, later) ∷ rs) b some_rate (h, k, slept, rest) =
      let (same, later_at, one) = acquire_lem now later b h k some_rate slept in
      let b' = (acquire unit now later b).1 in
      let (end_at, all) = acquire_all-rate rs b' (omega (arith, same, some_rate)) rest in
      let b'' = acquire_all unit rs b' in
      let whole = elapsed b.updated_at b'.updated_at b''.updated_at b.rps later_at end_at in
      (omega (arith, later_at, end_at), grind (arith, same, one, all, whole))

  -- An acquisition for one domain leaves the buckets of the other domains as they were.
  pub acquire_for-other :
      (domain other : Text) (now later : ℕ) (l : RateLimiter)
      → (domain == other) ≡ false
      → get other (acquire_for unit domain now later l).1.buckets ≡ get other l.buckets
  unfolding acquire_for
  acquire_for-other domain other now later l differ = rw (get-put, differ) refl
