-- ===== src/Crawler/Pipeline/Interleavings.antt =====
-- Every move of a job, and so every interleaving of the jobs, keeps the accounts of a crawl.
use ngfw_policy.Prelude.{
  ℕ, zero, suc, ◌+◌, Bool, List, [], ◌∷◌, Text, IsUnique-snoc, contains, length-append, arith,
  Bool-cases, inl, inr, nat_eq, list_eq, ltb, ltb→lt, not, ◌&&◌,
}
use ngfw_policy.Crawler.Pipeline.{
  Crawl, Job, Phase, pending, claimed, allowed, fetching, done, Event, proceed, robots_answer,
  fetch_result, gate, ask_robots, enter, advance, move, run_schedule,
}
use ngfw_policy.Crawler.Pipeline.Accounts.{
  bit, is_pending, is_fetching, is_active, tally, IsAccounted, Accounts, Among, Totals-cong,
  settle-Accounts, IsAccounted-Among, Among-IsAccounted,
}

module _ (is_fetchable : Text → Bool) (canonicalize : Text → Text) (respect_robots : Bool)
    (max : ℕ) where
  gate-Accounts :
      (f a d : ℕ) (j : Job) (c : Crawl)
      → Accounts max f a d (pending j) c
      → let (p', c') = gate is_fetchable canonicalize respect_robots max j c in
        Accounts max f a d p' c'
  unfolding gate
  gate-Accounts f a d j c h = elim (Bool-cases (is_fetchable j.url)) [
    | inr bad ↦ rw bad (record {
      unique = h.unique;
      extracted = h.extracted;
      sources = h.sources;
      permits = h.permits;
      bounded = h.bounded;
      claims = h.claims;
      urls = omega (arith, h.urls);
    })
    | inl good ↦ elim (Bool-cases (contains (canonicalize j.url) c.seen)) [
      | inl old ↦
          rw (good, old)
            (record {
              unique = h.unique;
              extracted = h.extracted;
              sources = h.sources;
              permits = h.permits;
              bounded = h.bounded;
              claims = h.claims;
              urls = omega (arith, h.urls);
            })
      | inr new ↦
          rw (good, new)
            (record {
              unique = IsUnique-snoc (canonicalize j.url) c.seen new h.unique;
              extracted = h.extracted;
              sources = h.sources;
              permits = h.permits;
              bounded = h.bounded;
              claims = omega (arith, h.claims, length-append c.seen (canonicalize j.url ∷ []));
              urls = omega (arith, h.urls, length-append c.seen (canonicalize j.url ∷ []));
            })
    ]
  ]

  ask_robots-Accounts :
      (f a d : ℕ) (j : Job) (can_fetch : Bool) (c : Crawl)
      → Accounts max f a d (claimed j) c
      → let (p', c') = ask_robots is_fetchable canonicalize respect_robots max j can_fetch c in
        Accounts max f a d p' c'
  unfolding ask_robots
  ask_robots-Accounts f a d j can_fetch c h = elim (Bool-cases (respect_robots && not can_fetch)) [
    | inl refused ↦ rw refused (record {
      unique = h.unique;
      extracted = h.extracted;
      sources = h.sources;
      permits = h.permits;
      bounded = h.bounded;
      claims = omega (arith, h.claims);
      urls = h.urls;
    })
    | inr let_in ↦ rw let_in (record {
      unique = h.unique;
      extracted = h.extracted;
      sources = h.sources;
      permits = h.permits;
      bounded = h.bounded;
      claims = h.claims;
      urls = h.urls;
    })
  ]

  enter-Accounts :
      (f a d : ℕ) (j : Job) (c : Crawl)
      → Accounts max f a d (allowed j) c
      → let (p', c') = enter is_fetchable canonicalize respect_robots max j c in
        Accounts max f a d p' c'
  unfolding enter
  enter-Accounts f a d j c h = elim (Bool-cases (ltb c.busy max)) [
    | inl free ↦ rw free (record {
      unique = h.unique;
      extracted = h.extracted;
      sources = h.sources;
      permits = omega (arith, h.permits);
      bounded = omega (arith, ltb→lt c.busy max free);
      claims = h.claims;
      urls = h.urls;
    })
    | inr full ↦ rw full h
  ]

  advance-Accounts :
      (f a d : ℕ) (e : Event) (p : Phase) (c : Crawl)
      → Accounts max f a d p c
      → let (p', c') = advance is_fetchable canonicalize respect_robots max e p c in
        Accounts max f a d p' c'
  unfolding advance
  advance-Accounts f a d proceed (pending j) c h = gate-Accounts f a d j c h
  advance-Accounts f a d proceed (allowed j) c h = enter-Accounts f a d j c h
  advance-Accounts f a d (robots_answer can_fetch) (claimed j) c h =
      ask_robots-Accounts f a d j can_fetch c h
  advance-Accounts f a d (fetch_result r) (fetching j) c h = settle-Accounts max f a d j r c h
  advance-Accounts f a d proceed (claimed j) c h = h
  advance-Accounts f a d proceed (fetching j) c h = h
  advance-Accounts f a d proceed done c h = h
  advance-Accounts f a d (robots_answer can_fetch) (pending j) c h = h
  advance-Accounts f a d (robots_answer can_fetch) (allowed j) c h = h
  advance-Accounts f a d (robots_answer can_fetch) (fetching j) c h = h
  advance-Accounts f a d (robots_answer can_fetch) done c h = h
  advance-Accounts f a d (fetch_result r) (pending j) c h = h
  advance-Accounts f a d (fetch_result r) (claimed j) c h = h
  advance-Accounts f a d (fetch_result r) (allowed j) c h = h
  advance-Accounts f a d (fetch_result r) done c h = h

  move-Among :
      (f a d : ℕ) (e : Event) (i : ℕ) (ps : List Phase) (c : Crawl)
      → Among max f a d ps c
      → let (ps', c') = move is_fetchable canonicalize respect_robots max e i ps c in
        Among max f a d ps' c'
  unfolding move tally
  move-Among f a d e i [] c h = h
  move-Among f a d e zero (p ∷ ps) c h = Totals-cong max (omega arith) (omega arith) (omega arith) (
      advance-Accounts (tally is_fetching ps + f) (tally is_active ps + a) (tally is_pending ps + d)
        e p c (Totals-cong max (omega arith) (omega arith) (omega arith) h))
  move-Among f a d e (suc i) (p ∷ ps) c h =
      Totals-cong max (omega arith) (omega arith) (omega arith) (
        move-Among (bit (is_fetching p) + f) (bit (is_active p) + a) (bit (is_pending p) + d) e i ps
          c (Totals-cong max (omega arith) (omega arith) (omega arith) h))

  -- Whatever the schedule of the jobs, the answers of robots.txt and the outcomes of the fetches, a
  -- crawl whose accounts add up keeps them: no canonical URL is claimed twice, at most
  -- `max` jobs fetch at once, every page has one source, and one extraction status unless its
  -- extraction raised, and the fetches
  -- are at most as many as the distinct canonical URLs, these and the duplicates at most as many as
  -- the discovered URLs.
  pub run_schedule-IsAccounted :
      (es : List (ℕ × Event)) (ps : List Phase) (c : Crawl)
      → IsAccounted max ps c
      → let (ps', c') = run_schedule is_fetchable canonicalize respect_robots max es ps c in
        IsAccounted max ps' c'
  unfolding run_schedule
  run_schedule-IsAccounted [] ps c h = h
  run_schedule-IsAccounted ((i, e) ∷ es) ps c h =
      let (ps', c') = move is_fetchable canonicalize respect_robots max e i ps c in
      run_schedule-IsAccounted es ps' c'
        (Among-IsAccounted (move-Among 0 0 0 e i ps c (IsAccounted-Among h)))
