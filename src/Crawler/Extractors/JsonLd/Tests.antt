-- ===== src/Crawler/Extractors/JsonLd/Tests.antt =====
-- A page with a graph and a list.
use ngfw_policy.Prelude.{
  ◌≡◌, refl, [], ◌∷◌, Text, codes, get, list_beq, list_eq, nat_eq, is_space, arith, some,
}
use ngfw_policy.Crawler.Extractors.JsonLd.{
  Json, str, arr, obj, no_items, item, Fields, no_entries, entry, iter_objects, size, extract,
}
use ngfw_policy.Crawler.Extractors.JsonLd.Objects.{objects, iter_objects-objects}

abbrev person : Fields
person = entry (codes "name") (str (codes "Ann ")) no_entries

abbrev post : Fields
post =
    entry (codes "headline") (str (codes "Flaw")) (entry (codes "author") (obj person) no_entries)

abbrev payload : Json
payload = arr (
    item (obj person)
      (item (obj (entry (codes "@graph") (arr (item (obj post) no_items)) no_entries)) no_items))

abbrev no_show : Json → Text
no_show j = []

post_first :
    get (codes "title") (extract no_show (codes "http://a") (payload ∷ [])) ≡ some (codes "Flaw")
unfolding extract get list_beq is_space
post_first = refl

iter_objects-objects_example : iter_objects (size payload) (payload ∷ []) ≡ objects payload
iter_objects-objects_example = iter_objects-objects payload (size payload) (omega arith)
