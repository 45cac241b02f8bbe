-- ===== src/Crawler/Feeds/Tests.antt =====
-- A feed that does not parse, one that cannot be fetched, and one with an entry.
use ngfw_policy.Prelude.{◌≡◌, refl, true, List, [], ◌∷◌, some, Text, codes, Dict, list_beq}
use ngfw_policy.Crawler.HttpSource.{FetchResult, new_result, failed}
use ngfw_policy.Crawler.Feeds.{ParsedFeed, entry_of, discover_links, fetch_entry}

abbrev item : Dict Text Text
item = (codes "link", codes "http://a") ∷ (codes "updated", codes "May") ∷ []

abbrev parse : Text → ParsedFeed
parse [] = record { bozo = true; entries = [] }
parse (c ∷ s) = record { bozo = true; entries = item ∷ item ∷ [] }

abbrev feeds : List FetchResult
feeds =
    (record new_result { status = failed; html = codes "x" })
    ∷ new_result
    ∷ (record new_result { html = codes "feed" })
    ∷ []

discovered : (discover_links parse 5 [] feeds).urls ≡ codes "http://a" ∷ []
unfolding discover_links list_beq
discovered = refl

updated_date : (entry_of item).1.published ≡ codes "May"
unfolding entry_of list_beq
updated_date = refl

kept_entry :
    (fetch_entry (codes "http://a") (discover_links parse 5 [] feeds).entry_meta new_result).1
    ≡ some (entry_of item).1
unfolding discover_links fetch_entry entry_of list_beq
kept_entry = refl
