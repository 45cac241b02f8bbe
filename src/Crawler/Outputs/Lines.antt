-- ===== src/Crawler/Outputs/Lines.antt =====
-- The lines of a JSONL file are the records, in the order of the writes.
use ngfw_policy.Prelude.{ℕ, List, [], ◌∷◌, ◌++◌, Text, eqb, if◌then◌else◌}
use ngfw_policy.Crawler.Outputs.{Document}

-- The first line of a text is extended by a character.
abbrev extend : ℕ → List Text × Text → List Text × Text
extend c ([], rest) = ([], c ∷ rest)
extend c (l ∷ ls, rest) = ((c ∷ l) ∷ ls, rest)

-- The lines of a text that end in a newline, and what stands behind the last one.
unfoldable pub lines : Text → List Text × Text
lines [] = ([], [])
lines (c ∷ s) = let found = lines s in if eqb c 10 then ([] ∷ found.0, found.1) else extend c found

module _ (dumps : Document → Text) where
  -- The lines of the records as one text.
  written : List Document → Text
  written [] = []
  written (r ∷ rs) = (dumps r ++ 10 ∷ []) ++ written rs
