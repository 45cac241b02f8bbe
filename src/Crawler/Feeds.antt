-- ===== src/Crawler/Feeds.antt =====
-- `RssSource` of src/sources/rss_source.py around `discover`: `_parse_feed`, which reads a feed
-- through `HttpSource.fetch`, and `fetch`. What feedparser finds in a text is an argument.
mod Tests
use ngfw_policy.Prelude.{
  ℕ, ◌≡◌, Bool, true, false, not, ◌&&◌, List, [], ◌∷◌, map, Option, none, some, Text, codes, Dict,
  get, is_nil, contains, has, if◌then◌else◌, nat_eq, list_eq,
}
use ngfw_policy.Crawler.HttpSource.{FetchResult, ok}
use ngfw_policy.Crawler.Discovery.{Entry, Found, IsDiscovery, discover_feeds}

-- `feedparser.parse`: whether the feed is ill-formed, and its entries, each with its fields.
pub record ParsedFeed : Type 0 where
  pub bozo : Bool
  pub entries : List (Dict Text Text)

-- `e.get(key, "")`
get_field : Text → Dict Text Text → Text
unfolding get
get_field key e = elim (get key e) [ none ↦ [] | some t ↦ t ]

unfoldable pub entry_of : Dict Text Text → Text × Entry
unfolding get_field
entry_of e =
    let published = get_field (codes "published") e in
    (
      get_field (codes "link") e,
      record {
        title = get_field (codes "title") e;
        published = if is_nil published then get_field (codes "updated") e else published;
        summary = get_field (codes "summary") e;
      },
    )

module _ (parse : Text → ParsedFeed) where
  -- `_parse_feed`, of what `super().fetch` gives
  unfoldable pub parse_feed : FetchResult → List (Text × Entry)
  unfolding entry_of ok
  parse_feed raw =
      let parsed = parse raw.html in
      if not (ok raw)
      then []
      else if parsed.bozo && is_nil parsed.entries
      then []
      else map entry_of parsed.entries

  -- `discover`, of the results of the requests for the feeds
  unfoldable pub discover_links : ℕ → Dict Text Entry → List FetchResult → Found
  unfolding parse_feed discover_feeds
  discover_links max_items meta raws = discover_feeds max_items meta (map parse_feed raws)

-- `fetch`: the result of `super().fetch` with its `metadata["feed_entry"]`
unfoldable pub fetch_entry : Text → Dict Text Entry → FetchResult → FetchResult × Option Entry
unfolding get
fetch_entry url meta result = (result, get url meta)
