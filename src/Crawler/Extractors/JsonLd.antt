-- ===== src/Crawler/Extractors/JsonLd.antt =====
-- src/extractors/jsonld_extractor.py on the decoded blocks of a page; a block that is no JSON is
-- skipped before. The keys of an object are distinct, a number is its text with whether it is not
-- zero, and Python's `str` of a value is an argument.
pub mod Objects
mod Tests
use ngfw_policy.Prelude.{
  ℕ, zero, suc, ◌+◌, Bool, true, false, not, ◌&&◌, ◌||◌, List, [], ◌∷◌, ◌++◌, map, Option, none,
  some, Text, codes, Dict, get, put, select, strip, is_space, is_nil, if◌then◌else◌, ◌==◌, list_eq,
  nat_eq,
}

mutual
  pub data Json : Type 0 where
    str : Text → Json
    num : Text → Bool → Json
    bool : Bool → Json
    null : Json
    obj : Fields → Json
    arr : Items → Json

  pub data Items : Type 0 where
    no_items : Items
    item : Json → Items → Items

  pub data Fields : Type 0 where
    no_entries : Fields
    entry : Text → Json → Fields → Fields

-- `obj.get(key)`
unfoldable pub find : Text → Fields → Option Json
find key no_entries = none
find key (entry k v fs) = if k == key then some v else find key fs

abbrev pub graph_key : Text
graph_key = codes "@graph"

-- `stack.extend(item)`; the top of the stack is its first element
unfoldable pub push_all : Items → List Json → List Json
push_all no_items stack = stack
push_all (item x xs) stack = push_all xs (x ∷ stack)

abbrev pub push_graph : Option Json → List Json → List Json
push_graph none stack = stack
push_graph (some g) stack = g ∷ stack

-- The loop of `_iter_objects`, on fuel.
unfoldable pub iter_objects : ℕ → List Json → List Fields
unfolding push_all find
iter_objects zero stack = []
iter_objects (suc fuel) [] = []
iter_objects (suc fuel) (arr xs ∷ stack) = iter_objects fuel (push_all xs stack)
iter_objects (suc fuel) (obj fs ∷ stack) =
    fs ∷ iter_objects fuel (push_graph (find graph_key fs) stack)
iter_objects (suc fuel) (other ∷ stack) = iter_objects fuel stack

unfoldable mutual
  -- The number of the values in a value, which is enough fuel.
  pub size : Json → ℕ
  size (arr xs) = suc (size_items xs)
  size (obj fs) = suc (size_fields fs)
  size _ = 1

  pub size_items : Items → ℕ
  size_items no_items = 0
  size_items (item x xs) = size x + size_items xs

  pub size_fields : Fields → ℕ
  size_fields no_entries = 0
  size_fields (entry k v fs) = size v + size_fields fs

-- `if value`
unfoldable pub truthy : Json → Bool
truthy null = false
truthy (bool b) = b
truthy (num s nonzero) = nonzero
truthy (str s) = not (is_nil s)
truthy (arr no_items) = false
truthy (arr (item x xs)) = true
truthy (obj no_entries) = false
truthy (obj (entry k v fs)) = true

-- `", ".join(...)`
unfoldable pub join_comma : List Text → Text
join_comma [] = []
join_comma (s ∷ []) = s
join_comma (s ∷ t ∷ ss) = s ++ (codes ", " ++ join_comma (t ∷ ss))

module _ (show : Json → Text) where
  -- `value.get(a) or ...`
  unfoldable pub or_find : Text → Fields → Json → Json
  unfolding find truthy
  or_find key fs default = elim (find key fs) [
    | none ↦ default
    | some v ↦ if truthy v then v else default
  ]

  -- `str(v)`, which is the text itself for a text
  unfoldable pub text_of : Json → Text
  text_of (str s) = s
  text_of v = show v

  -- `_flatten`
  unfoldable mutual
    unfolding strip select join_comma or_find text_of

    pub flatten : Json → Text
    flatten (str s) = strip is_space s
    flatten (obj fs) =
        strip is_space (text_of (or_find (codes "name") fs (or_find (codes "@id") fs (str []))))
    flatten (arr xs) = join_comma (select (λ p. not (is_nil p)) (flatten_items xs))
    flatten v = show v

    pub flatten_items : Items → List Text
    flatten_items no_items = []
    flatten_items (item x xs) = flatten x ∷ flatten_items xs

  -- `_FIELD_MAP`, and the author behind it
  abbrev pub field_map : List (Text × Text)
  field_map =
      (codes "headline", codes "title")
      ∷ (codes "name", codes "title")
      ∷ (codes "datePublished", codes "published")
      ∷ (codes "dateModified", codes "modified")
      ∷ (codes "description", codes "description")
      ∷ (codes "articleBody", codes "text")
      ∷ (codes "author", codes "author")
      ∷ []

  -- `not data.get(name)`
  abbrev is_missing : Text → Dict Text Text → Bool
  is_missing name found = elim (get name found) [ none ↦ true | some t ↦ is_nil t ]

  unfoldable pub fill : Fields → List (Text × Text) → Dict Text Text → Dict Text Text
  unfolding find truthy get put flatten
  fill fs [] found = found
  fill fs ((key, name) ∷ fields) found = fill fs fields (elim (find key fs) [
    | none ↦ found
    | some v ↦ if truthy v && is_missing name found then put name (flatten v) found else found
  ])

  unfoldable pub fill_all : List Fields → Dict Text Text → Dict Text Text
  unfolding fill
  fill_all [] found = found
  fill_all (fs ∷ objects) found = fill_all objects (fill fs field_map found)

  -- `extract`, from the blocks of the page in their order
  unfoldable pub extract_blocks : List Json → Dict Text Text → Dict Text Text
  unfolding fill_all iter_objects size
  extract_blocks [] found = found
  extract_blocks (payload ∷ payloads) found =
      extract_blocks payloads (fill_all (iter_objects (size payload) (payload ∷ [])) found)

  unfoldable pub extract : Text → List Json → Dict Text Text
  unfolding extract_blocks
  extract url payloads = extract_blocks payloads ((codes "url", url) ∷ [])
