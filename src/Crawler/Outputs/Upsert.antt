-- ===== src/Crawler/Outputs/Upsert.antt =====
-- The table of documents as a map from canonical URLs.
use ngfw_policy.Prelude.{
  ◌≡◌, true, List, [], ◌∷◌, Option, none, some, Text, Dict, codes, get, contains, if◌then◌else◌,
  list_eq, nat_eq, ◌==◌,
}
use ngfw_policy.Crawler.Outputs.{Value, text, Document, Database, get_or, columns, key_of, row_of}

-- The column of the primary key.
abbrev pub url_column : Text
url_column = codes "url_canonical"

module _ (dumps : Dict Text Value → Text) where
  -- The last of the records with a canonical URL.
  unfoldable pub last_of : Text → List Document → Option Document
  last_of k [] = none
  last_of k (r ∷ rs) = elim (last_of k rs) [
    | some later ↦ some later
    | none ↦ if key_of (row_of dumps r) == k then some r else none
  ]

  -- What a cell holds behind some records: that of the last record with its URL, or what it held.
  abbrev pub latest : Text → Text → List Document → Option Value → Option Value
  latest k c rs old = elim (last_of k rs) [ none ↦ old | some r ↦ get c (row_of dumps r) ]

  -- The canonical URL of a record is a text.
  abbrev pub HasUrl : Document → Type 0
  HasUrl r = (url : Text) × (get_or (codes "url_canonical") (text []) r.fields ≡ text url)

  module _ (db : Database) where
    -- A row stands under its own canonical URL.
    abbrev pub IsKeyed : db.Table → Type 0
    IsKeyed t = (k : Text) (v : Value) → db.cell k url_column t ≡ some v → v ≡ text k

    -- What a write makes of a table.
    abbrev pub IsWritten : Document → db.Table → db.Table → Type 0
    IsWritten r t t' =
        (k c : Text)
        → contains c columns ≡ true
        → db.cell k c t'
          ≡ (if key_of (row_of dumps r) == k then get c (row_of dumps r) else db.cell k c t)
