-- ===== src/Measure/Counts.antt =====
-- The numbers of the report agree with one another.
use ngfw_policy.Prelude.{
  ◌+◌, ◌≤◌, ◌≡◌, refl, Bool, true, false, not, ◌||◌, ◌&&◌, List, [], ◌∷◌, Text, All, length, select,
  contains, IsUnique, is_nil, list_eq, nat_eq, ◌==◌, eq_refl, All-select, every, Bool-cases, inl,
  inr, arith,
}
use ngfw_policy.Measure.Sets.{
  minus, inter, unions, contains-union, union-IsUnique, contains-select, select-IsUnique,
  length-union, length-subset,
}
use ngfw_policy.Measure.Report.{
  Source, permissive, live, all_ids, union_all, union_permissive, overlap, unique_ids, new_names,
  ceiling,
}

unions-IsUnique : (ss : List (List Text)) → All IsUnique ss → IsUnique (unions ss)
unfolding unions
unions-IsUnique [] h = tt
unions-IsUnique (s ∷ ss) h = union-IsUnique s (unions ss) h.0

abbrev AreSets : List Source → Type 0
AreSets = All (λ s. IsUnique s.ids)

ids-All : (sources : List Source) → AreSets sources → All IsUnique (all_ids sources)
ids-All [] h = tt
ids-All (s ∷ sources) h = (h.0, ids-All sources h.1)

union_all-IsUnique : (sources : List Source) → AreSets sources → IsUnique (union_all sources)
unfolding union_all live
union_all-IsUnique sources h =
    unions-IsUnique _
      (ids-All _ (All-select (λ s. IsUnique s.ids) (λ s. not (is_nil s.ids)) sources h))

union_permissive-IsUnique :
    (sources : List Source) → AreSets sources → IsUnique (union_permissive sources)
unfolding union_permissive live
union_permissive-IsUnique sources h = unions-IsUnique _ (
    ids-All _ (
      All-select (λ s. IsUnique s.ids) (λ s. contains s.license permissive) (live sources)
        (All-select (λ s. IsUnique s.ids) (λ s. not (is_nil s.ids)) sources h)))

All-contains :
    (P : Text → Type 0) (b : List Text) → ((x : Text) → contains x b ≡ true → P x) → All P b
unfolding contains
All-contains P [] h = tt
All-contains P (x ∷ b) h =
    (h x (ground (arith, eq_refl x)), All-contains P b (λ y m. h y (ground (arith, m))))

inter-le : (a b : List Text) → IsUnique a → length (inter a b) ≤ length (inter b a)
unfolding inter
inter-le a b u = length-subset (inter a b) (inter b a) (select-IsUnique (λ x. contains x b) a u) (
    All-contains _ (inter a b) (λ x m.
      ground
        (arith, contains-select (λ x. contains x b) x a, contains-select (λ x. contains x a) x b)))

sets-All :
    (P : Source → Type 0) (sources : List Source)
    → AreSets sources
    → ((s : Source) → IsUnique s.ids → P s)
    → All P sources
sets-All P [] h f = tt
sets-All P (s ∷ sources) h f = (f s h.0, sets-All P sources h.1 f)

empty_lem : (x : Text) (ids : List Text) → not (is_nil ids) ≡ false → contains x ids ≡ false
unfolding contains
empty_lem x [] h = refl
empty_lem x (y ∷ ids) h = cc

-- Some source that passes a test has an identity.
abbrev pub found_in : (Source → Bool) → Text → List Source → Bool
found_in p x sources = not (every (λ s. not (p s && contains x s.ids)) sources)

contains-live :
    (x : Text) (p : Source → Bool) (sources : List Source)
    → contains x (unions (all_ids (select p (live sources)))) ≡ found_in p x sources
unfolding live select unions every
contains-live x p [] = refl
contains-live x p (s ∷ sources) =
    let rest : List Text = unions (all_ids (select p (live sources))) in
    let ih = contains-live x p sources in
    elim (Bool-cases (not (is_nil s.ids))) [
      | inr empty ↦ rw empty (ground (arith, ih, empty_lem x s.ids))
      | inl filled ↦ elim (Bool-cases (p s)) [
        | inr out ↦ rw (filled, out) (ground (arith, ih))
        | inl passed ↦ rw (filled, passed) (ground (arith, ih, contains-union x s.ids rest))
      ]
    ]

contains-union_all :
    (x : Text) (sources : List Source)
    → contains x (union_all sources) ≡ found_in (λ s. true) x sources
unfolding union_all live select unions every
contains-union_all x [] = refl
contains-union_all x (s ∷ sources) =
    let rest : List Text = unions (all_ids (live sources)) in
    let ih = contains-union_all x sources in
    elim (Bool-cases (not (is_nil s.ids))) [
      | inr empty ↦ rw empty (ground (arith, ih, empty_lem x s.ids))
      | inl filled ↦ rw filled (ground (arith, ih, contains-union x s.ids rest))
    ]

-- The totals of the report, the sources and taxonomies being sets: an identity is counted as
-- permissive exactly if a source with a permissive license has it, and as an identity exactly if any
-- source has it, each once; the ceiling is the number of identities with the number of new names
-- of the taxonomies; the overlap of two of the sources does not depend on their order.
pub report-IsConsistent :
    (sources : List Source) (taxonomies : List (List Text))
    → AreSets sources
    → All IsUnique taxonomies
    → ((x : Text)
        → contains x (union_permissive sources)
          ≡ found_in (λ s. contains s.license permissive) x sources)
      × ((x : Text) → contains x (union_all sources) ≡ found_in (λ s. true) x sources)
      × IsUnique (union_permissive sources)
      × IsUnique (union_all sources)
      × (ceiling sources taxonomies
          ≡ length (union_all sources) + length (new_names sources taxonomies))
      × All (λ a. All (λ b. overlap a b ≡ overlap b a) sources) sources
unfolding ceiling new_names union_permissive overlap
report-IsConsistent sources taxonomies h k = (
  λ x. contains-live x (λ s. contains s.license permissive) sources,
  λ x. contains-union_all x sources,
  union_permissive-IsUnique sources h,
  union_all-IsUnique sources h,
  length-union (union_all sources) (unions taxonomies) (unions-IsUnique taxonomies k),
  sets-All _ sources h (λ a ua.
      sets-All _ sources h
        (λ b ub. omega (arith, inter-le a.ids b.ids ua, inter-le b.ids a.ids ub))),
)

-- The identities of the sources with another name.
others_lem :
    (x name : Text) (sources : List Source)
    → contains x (unions (all_ids (select (λ b. not (b.name == name)) (live sources))))
      ≡ not (every (λ b. b.name == name || not (contains x b.ids)) sources)
unfolding live select unions every
others_lem x name [] = refl
others_lem x name (s ∷ sources) =
    let rest : List Text = unions (all_ids (select (λ b. not (b.name == name)) (live sources))) in
    let ih = others_lem x name sources in
    elim (Bool-cases (not (is_nil s.ids))) [
      | inr empty ↦ rw empty (ground (arith, ih, empty_lem x s.ids))
      | inl filled ↦ elim (Bool-cases (not (s.name == name))) [
        | inr same ↦ rw (filled, same) (ground (arith, ih))
        | inl other ↦ rw (filled, other) (ground (arith, ih, contains-union x s.ids rest))
      ]
    ]

-- An identity counts as the unique contribution of a source exactly if the source has it and no
-- source with another name does.
pub contains-unique_ids :
    (x : Text) (sources : List Source) (a : Source)
    → contains x (unique_ids sources a)
      ≡ (contains x a.ids && every (λ b. b.name == a.name || not (contains x b.ids)) sources)
unfolding unique_ids minus
contains-unique_ids x sources a =
    let others : List Text =
      unions (all_ids (select (λ b. not (b.name == a.name)) (live sources))) in
    ground
      (arith, contains-select (λ y. not (contains y others)) x a.ids, others_lem x a.name sources)
