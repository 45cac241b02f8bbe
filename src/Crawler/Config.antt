-- ===== src/Crawler/Config.antt =====
-- src/core/config.py: the URLs of a source, the choice of sources, and the cache of `load_config`.
-- Paths are resolved, and a file is its modification time with its text; the parser, YAML with the
-- validation of pydantic, is an argument whose `none` is its exception.
use ngfw_policy.Prelude.{
  ℕ, ◌≡◌, refl, Bool, true, false, not, ◌&&◌, List, [], ◌∷◌, Option, none, some, Text, Dict, get,
  put, get-put, contains, select, is_nil, eqb, eqb_iff, IsUnique, if◌then◌else◌, ◌==◌, nat_eq,
  list_eq, list_beq_iff, eq_refl, arith, Bool-cases, Option-cases, inl, inr,
}

-- What the crawl reads of `SourceConfig`.
pub record SourceConfig : Type 0 where
  pub name : Text
  pub enabled : Bool
  pub url : Text
  pub urls : List Text
  pub rps : Option ℕ
  pub max_items : ℕ

-- `SourceConfig.all_urls`
unfoldable pub all_urls : SourceConfig → List Text
unfolding contains
all_urls s = if not (is_nil s.url) && not (contains s.url s.urls) then s.url ∷ s.urls else s.urls

pub record CrawlConfig : Type 0 where
  pub sources : List SourceConfig

-- `CrawlConfig.enabled_sources`
unfoldable pub enabled_sources : CrawlConfig → List SourceConfig
unfolding select
enabled_sources c = select (λ s. s.enabled) c.sources

find_source : Text → List SourceConfig → Option SourceConfig
find_source name [] = none
find_source name (s ∷ ss) = if s.name == name then some s else find_source name ss

-- `CrawlConfig.get`
unfoldable pub get_source : CrawlConfig → Text → Option SourceConfig
unfolding find_source
get_source c name = find_source name c.sources

-- What `load_config` gives: the config, `FileNotFoundError`, or the parser's exception.
pub data Loaded : Type 0 where
  config : CrawlConfig → Loaded
  not_found : Loaded
  invalid : Loaded

abbrev pub Cache : Type 0
Cache = Dict Text (CrawlConfig × ℕ)

module _ (parse : Text → Option CrawlConfig) where
  -- The file is read, and its config cached.
  unfoldable pub read_config : Text → ℕ → Text → Cache → Loaded × Cache
  unfolding put
  read_config path mtime content cache = elim (parse content) [
    | none ↦ (invalid, cache)
    | some c ↦ (config c, put path (c, mtime) cache)
  ]

  -- `load_config` on the file at `path`, which may be missing
  unfoldable pub load_config : Text → Option (ℕ × Text) → Cache → Loaded × Cache
  unfolding get read_config
  load_config path none cache = (not_found, cache)
  load_config path (some (mtime, content)) cache = elim (get path cache) [
    | none ↦ read_config path mtime content cache
    | some (c, cached) ↦
        if eqb cached mtime then (config c, cache) else read_config path mtime content cache
  ]

  -- `load_config` without its cache.
  abbrev pub load_uncached : Option (ℕ × Text) → Loaded
  load_uncached none = not_found
  load_uncached (some (mtime, content)) = elim (parse content) [
    | none ↦ invalid
    | some c ↦ config c
  ]

  module _ (content_at : Text → ℕ → Text) where
    -- Every cached config is the parse of what the file held at the cached time.
    abbrev pub IsCoherent : Cache → Type 0
    IsCoherent cache =
        (path : Text) (c : CrawlConfig) (mtime : ℕ)
        → get path cache ≡ some (c, mtime)
        → parse (content_at path mtime) ≡ some c

    read_config-IsCoherent :
        (path : Text) (mtime : ℕ) (cache : Cache)
        → IsCoherent cache
        → let (loaded, cache') = read_config path mtime (content_at path mtime) cache in
          (loaded ≡ load_uncached (some (mtime, content_at path mtime))) × IsCoherent cache'
    unfolding read_config
    read_config-IsCoherent path mtime cache h =
        elim (Option-cases (parse (content_at path mtime))) [
          | inl raised ↦ rw (raised, read_config, load_uncached) (refl, h)
          | inr (c, parsed) ↦
              rw (parsed, read_config, load_uncached)
                (
                  refl,
                  λ k c' t e. ground (
                    arith,
                    parsed,
                    h k c' t,
                    get-put path k (c, mtime) cache,
                    list_beq_iff path k,
                  ),
                )
        ]

    -- Where a file's text is determined by its modification time, the cache is transparent: a load
    -- from a coherent cache gives what a load without a cache gives, and leaves the cache coherent.
    pub load_config-IsCoherent :
        (path : Text) (mtime : ℕ) (cache : Cache)
        → IsCoherent cache
        → let (loaded, cache') = load_config path (some (mtime, content_at path mtime)) cache in
          (loaded ≡ load_uncached (some (mtime, content_at path mtime))) × IsCoherent cache'
    unfolding load_config
    load_config-IsCoherent path mtime cache h =
        let again = read_config-IsCoherent path mtime cache h in
        elim (Option-cases (get path cache)) [
          | inl missing ↦ rw (missing, load_config) again
          | inr ((c, cached), hit) ↦ elim (Bool-cases (eqb cached mtime)) [
            | inr stale ↦ rw (hit, stale, load_config) again
            | inl fresh ↦
                let same = (eqb_iff cached mtime).0 fresh in
                let parsed = h path c cached hit in
                rw (hit, fresh, load_config) (rw (← same, parsed, load_uncached) refl, h)
          ]
        ]

-- Where a source has a single URL beside a list without repetition, all its URLs are without
-- repetition, and the single URL is one of them.
pub all_urls-IsUnique :
    (s : SourceConfig)
    → is_nil s.url ≡ false
    → IsUnique s.urls
    → IsUnique (all_urls s) × (contains s.url (all_urls s) ≡ true)
unfolding all_urls contains
all_urls-IsUnique s named h = ground (arith, eq_refl s.url)
