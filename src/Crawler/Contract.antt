-- ===== src/Crawler/Contract.antt =====
-- The extraction contract of src/extractors/base.py. A score, a floating-point quotient in the
-- source, is the pair of its two weights, and the threshold is a fraction.
pub mod Status
use ngfw_policy.Prelude.{
  ℕ, ◌+◌, ◌*◌, Bool, true, false, not, ◌&&◌, ◌||◌, List, [], ◌∷◌, Option, none, some, Text, Dict,
  get, contains, map, select, strip, is_space, is_nil, eqb, ltb, leb, length, ◌==◌, if◌then◌else◌,
  nat_eq, list_eq,
}

-- `ExtractionStatus`
pub data ExtractionStatus : Type 0 where
  success : ExtractionStatus
  partial : ExtractionStatus
  fail : ExtractionStatus

-- A field's value: None, a text, a collection of some size, or anything else.
pub data FieldValue : Type 0 where
  null : FieldValue
  text : Text → FieldValue
  items : ℕ → FieldValue
  scalar : FieldValue

unfoldable pub is_present : FieldValue → Bool
is_present null = false
is_present (text s) = not (is_nil (strip is_space s))
is_present (items n) = ltb 0 n
is_present scalar = true

-- What the contract reads of `ExtractionConfig`.
pub record ExtractionConfig : Type 0 where
  pub required_fields : List Text
  pub optional_fields : List Text
  pub min_numerator : ℕ
  pub min_denominator : ℕ

pub record Score : Type 0 where
  pub earned : ℕ
  pub weight : ℕ

-- `is_present(data.get(f))`
unfoldable pub has_field : Dict Text FieldValue → Text → Bool
unfolding is_present get
has_field found f = is_present (elim (get f found) [ none ↦ null | some v ↦ v ])

unfoldable pub earned_by : Dict Text FieldValue → ℕ → List Text → ℕ
unfolding has_field
earned_by found w [] = 0
earned_by found w (f ∷ fs) = (if has_field found f then w else 0) + earned_by found w fs

unfoldable pub missing_of : Dict Text FieldValue → List Text → List Text
unfolding select has_field
missing_of found fields = select (λ f. not (has_field found f)) fields

unfoldable pub optional_of : Dict Text FieldValue → List Text → Option (List Text) → List Text
unfolding select contains
optional_of found required (some optional) = optional
optional_of found required none = select (λ k. not (contains k required)) (map (λ e. e.0) found)

-- `compute_quality_score`
unfoldable pub compute_quality_score :
    Dict Text FieldValue → List Text → Option (List Text) → Score × List Text
unfolding optional_of earned_by missing_of
compute_quality_score found required optional_fields =
    let optional : List Text = optional_of found required optional_fields in
    let total_weight : ℕ = length required * 2 + length optional in
    if eqb total_weight 0 then (record { earned = 1; weight = 1 }, []) else (
      record {
        earned = earned_by found 2 required + earned_by found 1 optional;
        weight = total_weight;
      },
      missing_of found required,
    )

-- `score >= config.min_quality_score`
unfoldable pub reaches : Score → ExtractionConfig → Bool
reaches s config = leb (config.min_numerator * s.weight) (s.earned * config.min_denominator)

-- The status of `evaluate_extraction`.
unfoldable pub status_of :
    Dict Text FieldValue → ExtractionConfig → Score → List Text → ExtractionStatus
unfolding reaches
status_of found config score missing =
    if is_nil config.required_fields || (is_nil missing && reaches score config)
    then success
    else if is_nil found || missing == config.required_fields
    then fail
    else partial

pub record ExtractionResult : Type 0 where
  pub status : ExtractionStatus
  pub missing_fields : List Text
  pub quality_score : Score

-- `evaluate_extraction`; an empty list of optional fields counts as none
unfoldable pub evaluate_extraction : Dict Text FieldValue → ExtractionConfig → ExtractionResult
unfolding compute_quality_score status_of
evaluate_extraction found config =
    let optional : Option (List Text) =
      if is_nil config.optional_fields then none else some config.optional_fields in
    let (score, missing) = compute_quality_score found config.required_fields optional in
    record {
      status = status_of found config score missing;
      missing_fields = missing;
      quality_score = score;
    }

-- `extract_and_evaluate`, where `none` is an extractor that raised
unfoldable pub extract_and_evaluate :
    Option (Dict Text FieldValue) → ExtractionConfig → ExtractionResult
unfolding evaluate_extraction
extract_and_evaluate none config = record {
  status = fail;
  missing_fields = [];
  quality_score = record { earned = 0; weight = 1 };
}
extract_and_evaluate (some found) config = evaluate_extraction found config
