-- ===== src/Crawler/Outputs/Tests.antt =====
-- The sinks on two records of one URL.
use ngfw_policy.Prelude.{
  ◌≡◌, refl, true, false, not, ◌&&◌, List, [], ◌∷◌, ◌++◌, Option, none, some, Text, codes, Dict,
  get, contains, if◌then◌else◌, list_eq, nat_eq, ◌==◌,
}
use ngfw_policy.Crawler.Outputs.{
  Value, text, Document, Row, Database, InsertStatement, bound, is_filled, key_of, DuckDbOutput,
  JsonlOutput,
}

-- A database whose table gives the value of each cell, and that refuses what is no upsert.
abbrev Cells : Type 0
Cells = Text → Text → Option Value

upserted : List Text → Row → Cells → Cells
upserted updates row t k c =
    if key_of row == k
    then (if is_filled (t k (codes "url_canonical")) && not (contains c updates)
        then t k c
        else get c row)
    else t k c

execute_cells : InsertStatement → List Value → Cells → Option Cells
unfolding upserted
execute_cells s vs t = elim s.updates [
  | none ↦ none
  | some updates ↦ some (upserted updates (bound s.into vs) t)
]

upserts_cells :
    (into updates : List Text) (vs : List Value) (t : Cells)
    → true ≡ true
    → (t' : Cells) × (execute_cells (record { into = into; updates = some updates }) vs t ≡ some t')
      × ((k c : Text)
          → t' k c ≡ (
              if key_of (bound into vs) == k
              then (if is_filled (t k (codes "url_canonical")) && not (contains c updates)
                  then t k c
                  else get c (bound into vs))
              else t k c))
unfolding execute_cells
upserts_cells into updates vs t h = (upserted updates (bound into vs) t, refl, λ k c. refl)

abbrev in_memory : Database
in_memory = record {
  Table = Cells;
  cell = λ k c t. t k c;
  accepts = λ row. true;
  execute = execute_cells;
  upserts = upserts_cells;
}

abbrev no_json : Dict Text Value → Text
no_json d = []

abbrev page : Text → Document
page title = record {
  fields = (codes "url_canonical", text (codes "http://a")) ∷ (codes "title", text title) ∷ [];
  indicators = [];
}

abbrev pages : List Document
pages = page (codes "old") ∷ page (codes "new") ∷ []

abbrev empty_db : DuckDbOutput no_json in_memory
empty_db = record { connected = false; table = λ k c. none; count = 0 }

abbrev one_line : Document → Text
one_line r = codes "{}"

abbrev old_file : JsonlOutput
old_file = record { is_open = false; content = codes "x" ++ 10 ∷ []; count = 0 }
