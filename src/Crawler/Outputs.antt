-- ===== src/Crawler/Outputs.antt =====
-- The sinks of src/outputs: base.py, jsonl_output.py and duckdb_output.py. The field `indicators` of
-- a record, a dict itself, stands beside the other fields. `json.dumps` and the database are
-- arguments; a missing table is created empty, and one that exists is kept.
pub mod Upsert
pub mod Lines
mod Tests
use ngfw_policy.Prelude.{
  ℕ, ◌+◌, ◌≡◌, Bool, true, false, List, [], ◌∷◌, ◌++◌, map, not, ◌&&◌, select, contains, Option,
  none, some, Text, codes, Dict, get, is_nil, if◌then◌else◌, list_eq, nat_eq, ◌==◌,
}

pub data Value : Type 0 where
  null : Value
  text : Text → Value
  texts : List Text → Value
  number : ℕ → Value

pub record Document : Type 0 where
  pub fields : Dict Text Value
  pub indicators : Dict Text Value

-- `record.get(k, default)`
unfoldable pub get_or : Text → Value → Dict Text Value → Value
unfolding get
get_or k default d = elim (get k d) [ none ↦ default | some v ↦ v ]

-- `indicators.get(k) or []`
unfoldable pub texts_or_empty : Text → Dict Text Value → Value
unfolding get_or
texts_or_empty k d = elim (get_or k null d) [
  | null ↦ texts []
  | text s ↦ if is_nil s then texts [] else text s
  | texts l ↦ texts l
  | number n ↦ if n == 0 then texts [] else number n
]

abbrev pub Row : Type 0
Row = Dict Text Value

-- The primary key of a row.
unfoldable pub key_of : Row → Text
unfolding get_or
key_of row = elim (get_or (codes "url_canonical") null row) [ text k ↦ k | _ ↦ [] ]

-- `_COLUMNS`
abbrev pub columns : List Text
columns =
    codes "url_canonical"
    ∷ codes "source_name"
    ∷ codes "url_final"
    ∷ codes "title"
    ∷ codes "author"
    ∷ codes "published"
    ∷ codes "text"
    ∷ codes "cves"
    ∷ codes "cvss_max"
    ∷ codes "ipv4"
    ∷ codes "cidrs"
    ∷ codes "domains"
    ∷ codes "sha256"
    ∷ codes "quality_score"
    ∷ codes "status"
    ∷ codes "indicators"
    ∷ codes "fetched_at"
    ∷ []

-- `INSERT INTO documents (...) VALUES (...)` on its columns, with the columns that its
-- `ON CONFLICT (url_canonical) DO UPDATE SET` takes from the new row, if it has that part.
pub record InsertStatement : Type 0 where
  pub into : List Text
  pub updates : Option (List Text)

-- The statement of `DuckDbOutput.write`.
abbrev pub statement : InsertStatement
statement = record {
  into = columns;
  updates = some (select (λ c. not (c == codes "url_canonical")) columns);
}

-- The values of a statement by their columns.
abbrev pub bound : List Text → List Value → Row
bound [] vs = []
bound (c ∷ cs) [] = []
bound (c ∷ cs) (v ∷ vs) = (c, v) ∷ bound cs vs

-- A cell that is filled.
abbrev pub is_filled : Option Value → Bool
is_filled none = false
is_filled (some v) = true

-- DuckDB, with a table whose primary key is `url_canonical`, and what it documents of an upsert whose
-- values fit their columns: it does not raise; without a row of the key it inserts the new row, and
-- otherwise sets in that row the columns of SET and keeps the others; it touches no other row. Of a
-- statement without `ON CONFLICT` nothing is asked.
pub record Database : Type 1 where
  pub Table : Type 0
  pub cell : Text → Text → Table → Option Value
  pub accepts : Row → Bool
  pub execute : InsertStatement → List Value → Table → Option Table
  pub upserts :
      (into updates : List Text) (vs : List Value) (t : Table)
      → accepts (bound into vs) ≡ true
      → (t' : Table) × (execute (record { into = into; updates = some updates }) vs t ≡ some t')
        × ((k c : Text)
            → cell k c t' ≡ (
                if key_of (bound into vs) == k
                then (if is_filled (cell k (codes "url_canonical") t) && not (contains c updates)
                    then cell k c t
                    else get c (bound into vs))
                else cell k c t))

module _ (dumps : Dict Text Value → Text) where
  -- The row of a record, in the order of `_COLUMNS`.
  unfoldable pub row_of : Document → Row
  unfolding get_or texts_or_empty
  row_of r =
      (codes "url_canonical", get_or (codes "url_canonical") (text []) r.fields)
      ∷ (codes "source_name", get_or (codes "source_name") (text []) r.fields)
      ∷ (codes "url_final", get_or (codes "url_final") (text []) r.fields)
      ∷ (codes "title", get_or (codes "title") (text []) r.fields)
      ∷ (codes "author", get_or (codes "author") (text []) r.fields)
      ∷ (codes "published", get_or (codes "published") (text []) r.fields)
      ∷ (codes "text", get_or (codes "text") (text []) r.fields)
      ∷ (codes "cves", texts_or_empty (codes "cves") r.indicators)
      ∷ (codes "cvss_max", get_or (codes "cvss_max") null r.indicators)
      ∷ (codes "ipv4", texts_or_empty (codes "ipv4") r.indicators)
      ∷ (codes "cidrs", texts_or_empty (codes "cidrs") r.indicators)
      ∷ (codes "domains", texts_or_empty (codes "domains") r.indicators)
      ∷ (codes "sha256", texts_or_empty (codes "sha256") r.indicators)
      ∷ (codes "quality_score", get_or (codes "quality_score") (number 0) r.fields)
      ∷ (codes "status", get_or (codes "status") (text []) r.fields)
      ∷ (codes "indicators", text (dumps r.indicators))
      ∷ (codes "fetched_at", get_or (codes "fetched_at") (text []) r.fields)
      ∷ []

  module _ (db : Database) where
    open db use {Table, execute}

    -- `DuckDbOutput`: whether it is connected, the table of its file, and the writes of this run
    pub record DuckDbOutput : Type 0 where
      pub connected : Bool
      pub table : Table
      pub count : ℕ

    unfoldable pub open_db : DuckDbOutput → DuckDbOutput
    open_db o = record o { connected = true }

    -- The values are `[row[c] for c in _COLUMNS]`, where a row has all columns.
    unfoldable pub write_row : Row → DuckDbOutput → Option DuckDbOutput
    unfolding get_or
    write_row row o = elim (execute statement (map (λ c. get_or c null row) columns) o.table) [
      | none ↦ none
      | some t ↦ some (record o { table = t; count = o.count + 1 })
    ]

    -- `DuckDbOutput.write`
    unfoldable pub write : Document → DuckDbOutput → Option DuckDbOutput
    unfolding open_db row_of write_row
    write r o = write_row (row_of r) (if o.connected then o else open_db o)

    -- `BaseOutput.write_many`
    unfoldable pub write_many : List Document → DuckDbOutput → Option DuckDbOutput
    unfolding write
    write_many [] o = some o
    write_many (r ∷ rs) o = elim (write r o) [ none ↦ none | some o' ↦ write_many rs o' ]

    unfoldable pub close_db : DuckDbOutput → DuckDbOutput
    close_db o = if o.connected then record o { connected = false } else o

-- `JsonlOutput`: whether its file is open, the text of the file, and the writes of this run
pub record JsonlOutput : Type 0 where
  pub is_open : Bool
  pub content : Text
  pub count : ℕ

module _ (dumps : Document → Text) where
  -- `open("a")`: the text that is there is kept
  unfoldable pub open_file : JsonlOutput → JsonlOutput
  open_file o = record o { is_open = true }

  -- `JsonlOutput.write`
  unfoldable pub write_line : Document → JsonlOutput → JsonlOutput
  unfolding open_file
  write_line r o =
      let o' : JsonlOutput = if o.is_open then o else open_file o in
      record o' { content = o'.content ++ (dumps r ++ 10 ∷ []); count = o'.count + 1 }

  unfoldable pub write_lines : List Document → JsonlOutput → JsonlOutput
  unfolding write_line
  write_lines [] o = o
  write_lines (r ∷ rs) o = write_lines rs (write_line r o)

  unfoldable pub close_file : JsonlOutput → JsonlOutput
  close_file o = if o.is_open then record o { is_open = false } else o
