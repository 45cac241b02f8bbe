-- ===== src/Crawler/Pipeline/Progress.antt =====
-- A crawl ends: every move that does something brings a job nearer to its end, and no crawl is stuck.
use ngfw_policy.Prelude.{
  ℕ, zero, suc, ◌+◌, ◌*◌, ◌≤◌, ◌<◌, ◌≡◌, ◌≢◌, ◌⊎◌, refl, Bool, true, not, ◌&&◌, List, [], ◌∷◌, Text,
  length, contains, ltb, ltb→lt, All, if_cases, Bool-cases, inl, inr, nat_eq, list_eq, arith,
}
use ngfw_policy.Crawler.Pipeline.{
  Crawl, Phase, pending, claimed, allowed, fetching, done, Event, proceed, robots_answer,
  fetch_result, skipped, gate, ask_robots, enter, advance, move, run_schedule,
}
use ngfw_policy.Crawler.Pipeline.Accounts.{bit, is_fetching, tally, IsAccounted}
use ngfw_policy.Crawler.Pipeline.Interleavings.{run_schedule-IsAccounted}

-- The awaits that a job still has before it.
abbrev pub steps_left : Phase → ℕ
steps_left (pending j) = 4
steps_left (claimed j) = 3
steps_left (allowed j) = 2
steps_left (fetching j) = 1
steps_left done = 0

unfoldable pub work : List Phase → ℕ
work [] = 0
work (p ∷ ps) = steps_left p + work ps

module _ (is_fetchable : Text → Bool) (canonicalize : Text → Text) (respect_robots : Bool)
    (max : ℕ) where
  abbrev step : Event → Phase → Crawl → Phase × Crawl
  step = advance is_fetchable canonicalize respect_robots max

  -- A job's move is idle, or brings it nearer to its end.
  advance_progress :
      (e : Event) (p : Phase) (c : Crawl)
      → (step e p c ≡ (p, c)) ⊎ (steps_left (step e p c).0 < steps_left p)
  unfolding advance gate ask_robots enter
  advance_progress proceed (pending j) c = inr (
      if_cases (λ (r : Phase × Crawl). steps_left r.0 < 4) (not (is_fetchable j.url)) _ _
        (λ _. omega arith)
        (λ _.
          if_cases (λ (r : Phase × Crawl). steps_left r.0 < 4)
            (contains (canonicalize j.url) c.seen) _ _ (λ _. omega arith) (λ _. omega arith)))
  advance_progress (robots_answer a) (claimed j) c = inr (
      if_cases (λ (r : Phase × Crawl). steps_left r.0 < 3) (respect_robots && not a) _ _
        (λ _. omega arith) (λ _. omega arith))
  advance_progress proceed (allowed j) c = elim (Bool-cases (ltb c.busy max)) [
    | inl free ↦ inr (rw free (omega arith))
    | inr full ↦ inl (rw full refl)
  ]
  advance_progress (fetch_result r) (fetching j) c = inr (omega arith)
  advance_progress proceed (claimed j) c = inl refl
  advance_progress proceed (fetching j) c = inl refl
  advance_progress proceed done c = inl refl
  advance_progress (robots_answer a) (pending j) c = inl refl
  advance_progress (robots_answer a) (allowed j) c = inl refl
  advance_progress (robots_answer a) (fetching j) c = inl refl
  advance_progress (robots_answer a) done c = inl refl
  advance_progress (fetch_result r) (pending j) c = inl refl
  advance_progress (fetch_result r) (claimed j) c = inl refl
  advance_progress (fetch_result r) (allowed j) c = inl refl
  advance_progress (fetch_result r) done c = inl refl

  move_progress :
      (e : Event) (i : ℕ) (ps : List Phase) (c : Crawl)
      → (move is_fetchable canonicalize respect_robots max e i ps c ≡ (ps, c))
        ⊎ (work (move is_fetchable canonicalize respect_robots max e i ps c).0 < work ps)
  unfolding move work
  move_progress e i [] c = inl refl
  move_progress e zero (p ∷ ps) c = elim (advance_progress e p c) [
    | inl idle ↦ inl (rw idle refl)
    | inr nearer ↦ inr (omega (arith, nearer))
  ]
  move_progress e (suc i) (p ∷ ps) c = elim (move_progress e i ps c) [
    | inl idle ↦ inl (rw idle refl)
    | inr nearer ↦ inr (omega (arith, nearer))
  ]

  -- No move of the schedule is idle.
  abbrev pub IsBusy : List (ℕ × Event) → List Phase → Crawl → Type 0
  IsBusy [] ps c = Unit
  IsBusy ((i, e) ∷ es) ps c =
      let (ps', c') = move is_fetchable canonicalize respect_robots max e i ps c in
      ◌≢◌ {A = List Phase × Crawl} (ps', c') (ps, c) × IsBusy es ps' c'

  schedule-le-work :
      (es : List (ℕ × Event)) (ps : List Phase) (c : Crawl) → IsBusy es ps c → length es ≤ work ps
  schedule-le-work [] ps c h = omega arith
  schedule-le-work ((i, e) ∷ es) ps c (moved, rest) = elim (move_progress e i ps c) [
    | inl idle ↦ absurd (moved idle)
    | inr nearer ↦
        let (ps', c') = move is_fetchable canonicalize respect_robots max e i ps c in
        omega (arith, nearer, schedule-le-work es ps' c' rest)
  ]

  work-le : (ps : List Phase) → work ps ≤ 4 * length ps
  unfolding work
  work-le [] = omega arith
  work-le (pending j ∷ ps) = omega (arith, work-le ps)
  work-le (claimed j ∷ ps) = omega (arith, work-le ps)
  work-le (allowed j ∷ ps) = omega (arith, work-le ps)
  work-le (fetching j ∷ ps) = omega (arith, work-le ps)
  work-le (done ∷ ps) = omega (arith, work-le ps)

  -- A crawl ends: whatever its state, at most four moves for each job do anything.
  pub schedule-ends :
      (es : List (ℕ × Event)) (ps : List Phase) (c : Crawl)
      → IsBusy es ps c
      → length es ≤ 4 * length ps
  schedule-ends es ps c h = omega (arith, schedule-le-work es ps c h, work-le ps)

  abbrev Moves : List Phase → Crawl → Type 0
  Moves ps c =
      (i : ℕ) × (e : Event) × (work (move is_fetchable canonicalize respect_robots max e i ps c).0
        < work ps)

  -- The event that moves a job which is not at its end, if a permit is free or the job fetches.
  moves_here :
      (p : Phase) (c : Crawl)
      → (c.busy < max) ⊎ (bit (is_fetching p) ≡ 1)
      → (steps_left p ≡ 0) ⊎ ((e : Event) × (steps_left (step e p c).0 < steps_left p))
  unfolding advance gate ask_robots enter
  moves_here done c h = inl refl
  moves_here (pending j) c h = inr (
    proceed,
    if_cases (λ (r : Phase × Crawl). steps_left r.0 < 4) (not (is_fetchable j.url)) _ _
        (λ _. omega arith)
        (λ _.
          if_cases (λ (r : Phase × Crawl). steps_left r.0 < 4)
            (contains (canonicalize j.url) c.seen) _ _ (λ _. omega arith) (λ _. omega arith)),
  )
  moves_here (claimed j) c h = inr (
    robots_answer true,
    if_cases (λ (r : Phase × Crawl). steps_left r.0 < 3) (respect_robots && not true) _ _
        (λ _. omega arith) (λ _. omega arith),
  )
  moves_here (allowed j) c (inl free) = inr (
    proceed,
    if_cases (λ (r : Phase × Crawl). steps_left r.0 < 2) (ltb c.busy max) _ _ (λ _. omega arith)
        (λ full. absurd (ground arith)),
  )
  moves_here (allowed j) c (inr h) = absurd (omega (arith, h))
  moves_here (fetching j) c h = inr (fetch_result skipped, omega arith)

  Moves-here :
      (p : Phase) (ps : List Phase) (c : Crawl) (e : Event)
      → steps_left (step e p c).0 < steps_left p
      → Moves (p ∷ ps) c
  unfolding move work
  Moves-here p ps c e h = (0, e, omega (arith, h))

  Moves-later : (p : Phase) (ps : List Phase) (c : Crawl) → Moves ps c → Moves (p ∷ ps) c
  unfolding move work
  Moves-later p ps c (i, e, h) = (suc i, e, omega (arith, h))

  -- With a free permit, any job that is not at its end can move.
  free-Moves : (ps : List Phase) (c : Crawl) → c.busy < max → 0 < work ps → Moves ps c
  unfolding work
  free-Moves [] c free h = absurd (omega arith)
  free-Moves (p ∷ ps) c free h = elim (moves_here p c (inl free)) [
    | inr (e, nearer) ↦ Moves-here p ps c e nearer
    | inl ended ↦ Moves-later p ps c (free-Moves ps c free (omega (arith, ended)))
  ]

  -- A job that fetches can end.
  fetching-Moves : (ps : List Phase) (c : Crawl) → 0 < tally is_fetching ps → Moves ps c
  unfolding tally
  fetching-Moves [] c h = absurd (omega arith)
  fetching-Moves (fetching j ∷ ps) c h = elim (moves_here (fetching j) c (inr refl)) [
    | inr (e, nearer) ↦ Moves-here (fetching j) ps c e nearer
    | inl ended ↦ absurd (omega (arith, ended))
  ]
  fetching-Moves (pending j ∷ ps) c h =
      Moves-later (pending j) ps c (fetching-Moves ps c (omega arith))
  fetching-Moves (claimed j ∷ ps) c h =
      Moves-later (claimed j) ps c (fetching-Moves ps c (omega arith))
  fetching-Moves (allowed j ∷ ps) c h =
      Moves-later (allowed j) ps c (fetching-Moves ps c (omega arith))
  fetching-Moves (done ∷ ps) c h = Moves-later done ps c (fetching-Moves ps c (omega arith))

  IsAccounted-Moves :
      (ps : List Phase) (c : Crawl) → 0 < max → IsAccounted max ps c → 0 < work ps → Moves ps c
  IsAccounted-Moves ps c some_permit h more = elim (Bool-cases (ltb c.busy max)) [
    | inl free ↦ free-Moves ps c (ltb→lt c.busy max free) more
    | inr full ↦ fetching-Moves ps c (ground (arith, h.permits))
  ]

  work-done : (ps : List Phase) → work ps ≡ 0 → All (λ p. p ≡ done) ps
  unfolding work
  work-done [] h = tt
  work-done (done ∷ ps) h = (refl, work-done ps (omega arith))
  work-done (pending j ∷ ps) h = absurd (omega arith)
  work-done (claimed j ∷ ps) h = absurd (omega arith)
  work-done (allowed j ∷ ps) h = absurd (omega arith)
  work-done (fetching j ∷ ps) h = absurd (omega arith)

  Finishes : List Phase → Crawl → Type 0
  Finishes ps c =
      (es : List (ℕ × Event)) × All (λ p. p ≡ done)
        (run_schedule is_fetchable canonicalize respect_robots max es ps c).0

  fueled_finish :
      (n : ℕ) (ps : List Phase) (c : Crawl)
      → 0 < max
      → work ps ≤ n
      → IsAccounted max ps c
      → Finishes ps c
  unfolding run_schedule Finishes
  fueled_finish zero ps c some_permit short h = ([], work-done ps (omega arith))
  fueled_finish (suc n) ps c some_permit short h = elim (Bool-cases (ltb 0 (work ps))) [
    | inr none_left ↦ ([], work-done ps (ground arith))
    | inl more ↦
        let (i, e, nearer) = IsAccounted-Moves ps c some_permit h (ltb→lt _ _ more) in
        let (ps', c') = move is_fetchable canonicalize respect_robots max e i ps c in
        let (es, ended) = fueled_finish n ps' c' some_permit (omega (arith, nearer)) (
          run_schedule-IsAccounted is_fetchable canonicalize respect_robots max ((i, e) ∷ []) ps c
            h) in
        ((i, e) ∷ es, ended)
  ]

  -- A crawl is never stuck: from every state whose accounts add up, with at least one permit, there
  -- is a schedule with answers of robots.txt and outcomes of fetches behind which every job is at its end.
  pub run_schedule-finishes :
      (ps : List Phase) (c : Crawl)
      → 0 < max
      → IsAccounted max ps c
      → (es : List (ℕ × Event)) × All
          (λ p. p ≡ done)
          (run_schedule is_fetchable canonicalize respect_robots max es ps c).0
  unfolding Finishes
  run_schedule-finishes ps c some_permit h =
      fueled_finish (work ps) ps c some_permit (omega arith) h
