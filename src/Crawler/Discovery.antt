-- ===== src/Crawler/Discovery.antt =====
-- `RssSource.discover` of src/sources/rss_source.py. The entries of each feed, none for a feed that
-- cannot be fetched or parsed, are given; an entry is its link with its other fields.
use ngfw_policy.Prelude.{
  ℕ, ◌≤◌, ◌<◌, ◌≡◌, Bool, true, false, ◌||◌, List, [], ◌∷◌, ◌++◌, Text, Dict, has, put, is_nil, leb,
  length, IsUnique, contains, if◌then◌else◌, nat_eq, list_eq, ◌⊎◌,
}

pub record Entry : Type 0 where
  pub title : Text
  pub published : Text
  pub summary : Text

-- `urls` and `self._entry_meta`, and whether the limit has ended the search.
pub record Found : Type 0 where
  pub urls : List Text
  pub entry_meta : Dict Text Entry
  pub is_full : Bool

unfoldable pub take_entry : ℕ → Found → Text × Entry → Found
unfolding has put
take_entry max_items st (link, entry) =
    if is_nil link || has link st.entry_meta then st else record {
      urls = st.urls ++ link ∷ [];
      entry_meta = put link entry st.entry_meta;
      is_full = leb max_items (length (st.urls ++ link ∷ []));
    }

-- The entries of one feed, up to the return.
unfoldable pub take_feed : ℕ → Found → List (Text × Entry) → Found
unfolding take_entry
take_feed max_items st [] = st
take_feed max_items st (e ∷ es) =
    if st.is_full then st else take_feed max_items (take_entry max_items st e) es

unfoldable pub take_feeds : ℕ → Found → List (List (Text × Entry)) → Found
unfolding take_feed
take_feeds max_items st [] = st
take_feeds max_items st (f ∷ fs) =
    if st.is_full then st else take_feeds max_items (take_feed max_items st f) fs

-- `discover`, of a source whose entries so far are `meta`
unfoldable pub discover_feeds : ℕ → Dict Text Entry → List (List (Text × Entry)) → Found
unfolding take_feeds
discover_feeds max_items meta feeds =
    take_feeds max_items (record { urls = []; entry_meta = meta; is_full = false }) feeds

-- What holds during the search: the links are distinct and named, each has its entry, and the limit
-- is passed by no more than the link that meets it.
pub record IsDiscovery (max_items : ℕ) (st : Found) : Type 0 where
  pub unique : IsUnique st.urls
  pub known : (u : Text) → contains u st.urls ≡ true → has u st.entry_meta ≡ true
  pub named : contains [] st.urls ≡ false
  pub limit : (length st.urls ≤ 1) ⊎ (length st.urls ≤ max_items)
  pub room : st.is_full ≡ false → (length st.urls ≡ 0) ⊎ (length st.urls < max_items)
