-- ===== src/Crawler/Robots.antt =====
-- The cache of src/utils/robotstxt.py. The parser of the standard library is an argument: its type,
-- the parser that allows all, and `parse`. A reply is the code and the text of robots.txt, or none
-- where the client raised; the clock's readings are arguments.
use ngfw_policy.Prelude.{
  ℕ, ◌-◌, ◌<◌, ◌≡◌, refl, Bool, Option, none, some, Text, Dict, get, put, get-put, leb, ltb,
  if◌then◌else◌, eq_refl, nat_eq, list_eq, arith,
}

module _ {P : Type 0} (allow_all : P) (parse : Text → P) (ttl : ℕ) where
  abbrev pub Parsers : Type 0
  Parsers = Dict Text (P × ℕ)

  -- `_load`
  unfoldable pub load_robots : Option (ℕ × Text) → P
  load_robots none = allow_all
  load_robots (some (code, body)) = if leb 400 code then allow_all else parse body

  -- `_fresh`
  unfoldable pub fresh : Text → ℕ → Parsers → Option P
  unfolding get
  fresh origin now cache = elim (get origin cache) [
    | none ↦ none
    | some (parser, loaded_at) ↦ if ltb (now - loaded_at) ttl then some parser else none
  ]

  -- `_get_parser` under the lock of the origin: `now` is the reading of the check, `later` the one
  -- behind the request.
  unfoldable pub get_parser : Text → ℕ → ℕ → Option (ℕ × Text) → Parsers → P × Parsers
  unfolding fresh load_robots put
  get_parser origin now later reply cache = elim (fresh origin now cache) [
    | some parser ↦ (parser, cache)
    | none ↦ (load_robots reply, put origin (load_robots reply, later) cache)
  ]

  fresh-put :
      (origin : Text) (parser : P) (later at : ℕ) (cache : Parsers)
      → at - later < ttl
      → fresh origin at (put origin (parser, later) cache) ≡ some parser
  unfolding fresh
  fresh-put origin parser later at cache young =
      let stored : get origin (put origin (parser, later) cache) ≡ some (parser, later) =
        rw (get-put origin origin (parser, later) cache, eq_refl origin) refl in
      rw (stored, fresh) (ground (arith, young))

  -- Behind a request for robots.txt, as long as the time to live has not passed, a further call
  -- for the origin gives the same parser and leaves the cache, whatever a new request would
  -- answer.
  pub get_parser-cached :
      (origin : Text) (now later at at' : ℕ) (reply reply' : Option (ℕ × Text)) (cache : Parsers)
      → fresh origin now cache ≡ none
      → at - later < ttl
      → let (parser, cache') = get_parser origin now later reply cache in
        get_parser origin at at' reply' cache' ≡ (parser, cache')
  unfolding get_parser
  get_parser-cached origin now later at at' reply reply' cache miss young =
      let first : get_parser origin now later reply cache
          ≡ (load_robots reply, put origin (load_robots reply, later) cache) =
        rw (miss, get_parser) refl in
      let again = fresh-put origin (load_robots reply) later at cache young in
      rw first (rw (again, get_parser) refl)

  -- `can_fetch`, of the URL whose origin is given; the verdict of the parser is an argument
  unfoldable pub can_fetch :
      (P → Text → Bool) → Text → Text → ℕ → ℕ → Option (ℕ × Text) → Parsers → Bool × Parsers
  unfolding get_parser
  can_fetch allows url origin now later reply cache =
      let (parser, cache') = get_parser origin now later reply cache in (allows parser url, cache')

  -- `crawl_delay`; the delay of a parser is none also where it raises
  unfoldable pub crawl_delay :
      (P → Option ℕ) → Text → ℕ → ℕ → Option (ℕ × Text) → Parsers → Option ℕ × Parsers
  unfolding get_parser
  crawl_delay delay_of origin now later reply cache =
      let (parser, cache') = get_parser origin now later reply cache in (delay_of parser, cache')
