-- ===== src/Measure/Report.antt =====
-- `main` of tools/measure_corpus.py: the numbers of the report.
use ngfw_policy.Prelude.{
  ℕ, ◌-◌, not, List, [], ◌∷◌, map, Text, codes, is_nil, contains, select, length, list_eq, nat_eq,
  ◌==◌,
}
use ngfw_policy.Measure.Sets.{union, minus, inter, unions}

-- A source of `SOURCES` with its identities.
pub record Source : Type 0 where
  pub name : Text
  pub license : Text
  pub ids : List Text

-- `PERMISSIVE`
abbrev pub permissive : List Text
permissive =
    codes "Apache-2.0"
    ∷ codes "MIT"
    ∷ codes "BSD-3-Clause"
    ∷ codes "BSD-2-Clause"
    ∷ codes "Unlicense"
    ∷ []

-- `{k: v for k, v in sets.items() if v}`
unfoldable pub live : List Source → List Source
unfolding select
live = select (λ s. not (is_nil s.ids))

abbrev pub all_ids : List Source → List (List Text)
all_ids = map (λ (s : Source). s.ids)

unfoldable pub union_all : List Source → List Text
unfolding live unions
union_all sources = unions (all_ids (live sources))

unfoldable pub union_permissive : List Source → List Text
unfolding live unions select contains
union_permissive sources =
    unions (all_ids (select (λ s. contains s.license permissive) (live sources)))

-- An entry of the overlap matrix.
unfoldable pub overlap : Source → Source → ℕ
unfolding inter
overlap a b = length (inter a.ids b.ids)

-- The identities found in no other source.
unfoldable pub unique_ids : List Source → Source → List Text
unfolding live unions select minus
unique_ids sources a =
    minus a.ids (unions (all_ids (select (λ b. not (b.name == a.name)) (live sources))))

-- The taxonomies' names, those that are new, and the ceiling.
unfoldable pub new_names : List Source → List (List Text) → List Text
unfolding unions minus union_all
new_names sources taxonomies = minus (unions taxonomies) (union_all sources)

unfoldable pub ceiling : List Source → List (List Text) → ℕ
unfolding unions union union_all
ceiling sources taxonomies = length (union (union_all sources) (unions taxonomies))

-- `max(0, 3000 - len(union | tax_union))`
unfoldable pub remaining_gap : List Source → List (List Text) → ℕ
unfolding ceiling
remaining_gap sources taxonomies = 3000 - ceiling sources taxonomies
