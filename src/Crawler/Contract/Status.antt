-- ===== src/Crawler/Contract/Status.antt =====
-- What the status of an extraction says of its fields.
use ngfw_policy.Prelude.{
  ℕ, ◌*◌, ◌≤◌, ◌<◌, ◌≡◌, ◌↔◌, refl, ap, Bool, true, false, not, ◌&&◌, ◌||◌, List, [], ◌∷◌, Option,
  none, some, get, Text, Dict, every, select, is_nil, length, arith, Bool-cases, inl, inr, ◌==◌,
  list_eq, nat_eq, if◌then◌else◌, list_beq_iff, list_beq, eq_refl,
}
use ngfw_policy.Crawler.Contract.{
  FieldValue, earned_by, optional_of, has_field, is_present, missing_of, ExtractionConfig,
  ExtractionStatus, success, partial, fail, Score, compute_quality_score, reaches, status_of,
  evaluate_extraction,
}

length-select : {A : Type 0} (p : A → Bool) (xs : List A) → length (select p xs) ≤ length xs
unfolding select
length-select p [] = omega arith
length-select p (x ∷ xs) = ground (arith, length-select p xs)

is_nil-select :
    {A : Type 0} (p : A → Bool) (xs : List A) → is_nil (select p xs) ≡ every (λ x. not (p x)) xs
unfolding select every
is_nil-select p [] = refl
is_nil-select p (x ∷ xs) = ground (arith, is_nil-select p xs)

select-eq_self : (p : Text → Bool) (xs : List Text) → (select p xs == xs) ≡ every p xs
unfolding select every list_beq
select-eq_self p [] = refl
select-eq_self p (x ∷ xs) = elim (Bool-cases (p x)) [
  | inl kept ↦ rw (kept, eq_refl x) (select-eq_self p xs)
  | inr left ↦ rw left (elim (Bool-cases (select p xs == x ∷ xs)) [
    | inr other ↦ other
    | inl same ↦
        let shorter = ap length ((list_beq_iff (select p xs) (x ∷ xs)).0 same) in
        absurd (omega (arith, shorter, length-select p xs))
  ])
]

earned_by-le :
    (found : Dict Text FieldValue) (w : ℕ) (fs : List Text) → earned_by found w fs ≤ w * length fs
unfolding earned_by
earned_by-le found w [] = omega arith
earned_by-le found w (f ∷ fs) = ground (arith, earned_by-le found w fs)

-- The score is a quotient with a positive denominator, between 0 and 1.
pub quality_score-bounded :
    (found : Dict Text FieldValue) (required : List Text) (optional : Option (List Text))
    → let (score, missing) = compute_quality_score found required optional in
      (0 < score.weight) × (score.earned ≤ score.weight)
unfolding compute_quality_score
quality_score-bounded found required optional = ground (
  arith,
  earned_by-le found 2 required,
  earned_by-le found 1 (optional_of found required optional),
)

every-not-not : (p : Text → Bool) (xs : List Text) → every (λ x. not (not (p x))) xs ≡ every p xs
unfolding every
every-not-not p [] = refl
every-not-not p (x ∷ xs) = ground (arith, every-not-not p xs)

nothing_found : (fs : List Text) → every (λ f. not (has_field [] f)) fs ≡ true
unfolding every has_field is_present get
nothing_found [] = refl
nothing_found (f ∷ fs) = nothing_found fs

-- Not every field is both there and missing.
not_both :
    (p : Text → Bool) (xs : List Text)
    → is_nil xs ≡ false
    → every p xs ≡ true
    → every (λ x. not (p x)) xs ≡ false
unfolding every
not_both p [] n h = cc
not_both p (x ∷ xs) n h = ground arith

decide : Bool → Bool → Bool → Bool → ExtractionStatus
decide there met empty lacking =
    if false || (there && met) then success else if empty || lacking then fail else partial

decide_lem :
    (there met empty lacking : Bool)
    → (empty ≡ true → lacking ≡ true)
    → (there ≡ true → lacking ≡ false)
    → ((decide there met empty lacking ≡ success) ↔ ((there ≡ true) × (met ≡ true)))
      × ((decide there met empty lacking ≡ fail) ↔ (lacking ≡ true))
unfolding decide
decide_lem true true empty lacking h k = ground (arith, k refl)
decide_lem true false empty lacking h k = ground (arith, k refl)
decide_lem false met empty lacking h k = ground (arith, h)

-- Where the contract has required fields, the status is decided by the fields and the score.
status_lem :
    (found : Dict Text FieldValue) (config : ExtractionConfig) (score : Score)
    → is_nil config.required_fields ≡ false
    → status_of found config score (missing_of found config.required_fields)
      ≡ decide
          (every (has_field found) config.required_fields)
          (reaches score config)
          (is_nil found)
          (every (λ f. not (has_field found f)) config.required_fields)
unfolding status_of missing_of decide
status_lem found config score some_required =
    rw
      (
        some_required,
        is_nil-select (λ f. not (has_field found f)) config.required_fields,
        every-not-not (has_field found) config.required_fields,
        select-eq_self (λ f. not (has_field found f)) config.required_fields,
      )
      refl

nothing_there :
    (found : Dict Text FieldValue) (fs : List Text)
    → is_nil found ≡ true
    → every (λ f. not (has_field found f)) fs ≡ true
nothing_there [] fs h = nothing_found fs
nothing_there (e ∷ found) fs h = cc

missing_lem :
    (found : Dict Text FieldValue) (required : List Text) (optional : Option (List Text))
    → is_nil required ≡ false
    → (compute_quality_score found required optional).1 ≡ missing_of found required
unfolding compute_quality_score
missing_lem found [] optional h = cc
missing_lem found (f ∷ fs) optional h = ground arith

-- With at least one required field, an extraction is a SUCCESS exactly when every required field is
-- present and the score reaches the threshold, and a FAIL exactly when no required field is present.
pub evaluate_extraction-contract :
    (found : Dict Text FieldValue) (config : ExtractionConfig)
    → is_nil config.required_fields ≡ false
    → let r = evaluate_extraction found config in
      ((r.status ≡ success) ↔ (
        (every (has_field found) config.required_fields ≡ true)
        × (reaches r.quality_score config ≡ true)))
      × ((r.status ≡ fail) ↔ (every (λ f. not (has_field found f)) config.required_fields ≡ true))
unfolding evaluate_extraction
evaluate_extraction-contract found config some_required =
    let required = config.required_fields in
    let optional = if is_nil config.optional_fields then none else some config.optional_fields in
    let score = (compute_quality_score found required optional).0 in
    let split =
      decide_lem (every (has_field found) required) (reaches score config) (is_nil found)
        (every (λ f. not (has_field found f)) required) (nothing_there found required)
        (not_both (has_field found) required some_required) in
    rw
      (
        missing_lem found required optional some_required,
        status_lem found config score some_required,
      )
      split
