-- ===== src/Crawler/Extractors/Pages.antt =====
-- src/extractors/article_extractor.py, selector_extractor.py and registry.py. What
-- the HTML parsers find in a page is given: the text and metadata of trafilatura, the nodes of a
-- selector, headings and paragraphs.
mod Tests
use ngfw_policy.Prelude.{
  ℕ, Bool, true, false, not, ◌||◌, List, [], ◌∷◌, ◌++◌, map, Option, none, some, Text, codes, Dict,
  get, put, select, strip, is_space, is_nil, eqb, if◌then◌else◌, ◌==◌, list_eq, nat_eq,
}

-- `data.get(key)`, with an empty text for none
abbrev pub value_of : Text → Dict Text Text → Text
value_of key found = elim (get key found) [ none ↦ [] | some t ↦ t ]

-- The metadata of trafilatura, where None is the empty text.
pub record PageMeta : Type 0 where
  pub title : Text
  pub author : Text
  pub date : Text
  pub sitename : Text
  pub description : Text

-- `data.update({...})`
unfoldable pub add_meta : Option PageMeta → Dict Text Text → Dict Text Text
unfolding put
add_meta none found = found
add_meta (some m) found = put (codes "description") m.description (
    put (codes "sitename") m.sitename (
      put (codes "published") m.date
        (put (codes "author") m.author (put (codes "title") m.title found))))

-- `for key, value in ...: if not data.get(key): data[key] = value`
unfoldable pub fill_missing : Dict Text Text → Dict Text Text → Dict Text Text
unfolding get put
fill_missing [] found = found
fill_missing ((key, value) ∷ others) found =
    fill_missing others (if is_nil (value_of key found) then put key value found else found)

-- `"\n\n".join(parts)`
unfoldable pub join_paragraphs : List Text → Text
join_paragraphs [] = []
join_paragraphs (s ∷ []) = s
join_paragraphs (s ∷ t ∷ ss) = s ++ (10 ∷ 10 ∷ join_paragraphs (t ∷ ss))

-- `_fallback`, from the text of the heading or the title, and those of the paragraphs
unfoldable pub fallback : Option Text → List Text → Dict Text Text
unfolding join_paragraphs select
fallback heading paragraphs =
    (codes "title", elim heading [ none ↦ [] | some t ↦ t ])
    ∷ (codes "text", join_paragraphs (select (λ t. not (is_nil t)) paragraphs))
    ∷ []

-- `ArticleExtractor.extract`; the body is empty where trafilatura declines to give one
unfoldable pub extract_article :
    Text → Text → Option PageMeta → Option Text → List Text → Dict Text Text
unfolding add_meta put get fill_missing fallback
extract_article url body meta heading paragraphs =
    let found : Dict Text Text =
      put (codes "text") body (add_meta meta ((codes "url", url) ∷ [])) in
    if is_nil (value_of (codes "text") found) || is_nil (value_of (codes "title") found)
    then fill_missing (fallback heading paragraphs) found
    else found

-- `selector.partition("@")`
unfoldable pub partition_at : Text → Text × Text
partition_at [] = ([], [])
partition_at (c ∷ s) =
    let (css, attr) = partition_at s in
    let longer : Text × Text = (c ∷ css, attr) in if eqb c b'@' then ([], s) else longer

-- A node: its text and its attributes.
pub record PageNode : Type 0 where
  pub content : Text
  pub attributes : Dict Text Text

-- The values of a selector, stripped, without the empty ones.
unfoldable pub node_values : Text → List PageNode → List Text
unfolding get select strip
node_values attr nodes =
    select (λ v. not (is_nil v))
      (map
        (λ (n : PageNode).
          strip is_space (if is_nil attr then n.content else value_of attr n.attributes))
        nodes)

module _ (css_nodes : Text → List PageNode) where
  -- The loop of `SelectorExtractor.extract`; a field with one value has that value, and its list has
  -- one element
  unfoldable pub extract_selectors : Dict Text Text → Dict Text (List Text) → Dict Text (List Text)
  unfolding partition_at node_values put strip
  extract_selectors [] found = found
  extract_selectors ((name, selector) ∷ selectors) found =
      let (css, attr) = partition_at selector in
      let values : List Text = node_values attr (css_nodes (strip is_space css)) in
      extract_selectors selectors (if is_nil values then found else put name values found)

  -- `SelectorExtractor.extract`, by the selectors of the call, or else by its own
  unfoldable pub extract_fields : Text → Dict Text Text → Dict Text Text → Dict Text (List Text)
  unfolding extract_selectors
  extract_fields url own given =
      let by_field : Dict Text Text = if is_nil given then own else given in
      if is_nil by_field then [] else extract_selectors by_field ((codes "url", url ∷ []) ∷ [])

-- The classes of `_BY_NAME`, with what their constructors take.
pub data Extractor : Type 0 where
  article : Extractor
  jsonld : Extractor
  selectors : Dict Text Text → Extractor

-- `build_extractor`, whose `none` is its ValueError
unfoldable pub build_extractor : Text → Dict Text Text → Option Extractor
build_extractor strategy by_field =
    if strategy == codes "article"
    then some article
    else if strategy == codes "jsonld"
    then some jsonld
    else if strategy == codes "selectors"
    then some (selectors by_field)
    else none
