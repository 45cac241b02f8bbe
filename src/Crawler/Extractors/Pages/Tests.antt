-- ===== src/Crawler/Extractors/Pages/Tests.antt =====
-- Pages with little text, and the registry.
use ngfw_policy.Prelude.{◌≡◌, refl, List, [], ◌∷◌, none, some, Text, codes, list_beq, is_space}
use ngfw_policy.Crawler.Extractors.Pages.{
  PageNode, extract_article, extract_selectors, build_extractor,
}

fallback_title :
    extract_article (codes "http://a") (codes "body") none (some (codes "Heading")) (codes "p" ∷ [])
    ≡ (codes "url", codes "http://a")
      ∷ (codes "text", codes "body")
      ∷ (codes "title", codes "Heading")
      ∷ []
unfolding extract_article list_beq
fallback_title = refl

abbrev time_node : Text → List PageNode
time_node css =
    record { content = codes " May "; attributes = (codes "datetime", codes "2024") ∷ [] } ∷ []

attribute_value :
    extract_selectors time_node
      ((codes "published", codes "time@datetime") ∷ (codes "shown", codes "time") ∷ [])
      []
    ≡ (codes "published", codes "2024" ∷ []) ∷ (codes "shown", codes "May" ∷ []) ∷ []
unfolding extract_selectors list_beq is_space
attribute_value = refl

unknown_strategy : build_extractor (codes "xpath") [] ≡ none
unfolding build_extractor list_beq
unknown_strategy = refl
