-- ===== src/Prelude/Assoc.antt =====
-- Python's dict as an association list in insertion order, and its set as a list.
use mathlib.Core.Path.{◌≡◌, refl}
use mathlib.Core.Logic.{inl, inr}
use mathlib.Core.Bool.{Bool, true, false, ◌||◌}
use mathlib.Core.Option.{Option, none, some}
use mathlib.Core.List.{List, [], ◌∷◌, ◌++◌, map}
use native.Mathlib.Omega.{arith}
use ngfw_policy.Prelude.Tests.{if◌then◌else◌, Bool-cases}
use ngfw_policy.Prelude.Lists.{All}
use ngfw_policy.Prelude.Equality.{Eq, ◌==◌}

abbrev pub Dict {ℓ κ} : Type ℓ → Type κ → Type (ℓ ⊔ κ)
Dict K V = List (K × V)

module _ {ℓ κ} {K : Type ℓ} {V : Type κ} ⦃e : Eq K⦄ where
  -- `d.get(k)`
  unfoldable pub get : K → Dict K V → Option V
  get k [] = none
  get k ((j, v) ∷ d) = if j == k then some v else get k d

  -- `k in d`
  unfoldable pub has : K → Dict K V → Bool
  has k [] = false
  has k ((j, v) ∷ d) = j == k || has k d

  -- `d[k] = v`: an old key keeps its place
  unfoldable pub put : K → V → Dict K V → Dict K V
  put k v [] = (k, v) ∷ []
  put k v ((j, w) ∷ d) = if j == k then (j, v) ∷ d else (j, w) ∷ put k v d

  pub get-put :
      (k j : K) (v : V) (d : Dict K V) → get j (put k v d) ≡ (if k == j then some v else get j d)
  unfolding get put
  get-put k j v [] = refl
  get-put k j v ((i, w) ∷ d) =
      ground (arith, e.same_iff k j, e.same_iff i k, e.same_iff i j, get-put k j v d)

  pub has-put : (k j : K) (v : V) (d : Dict K V) → has j (put k v d) ≡ (k == j || has j d)
  unfolding has put
  has-put k j v [] = ground arith
  has-put k j v ((i, w) ∷ d) =
      ground (arith, e.same_iff k j, e.same_iff i k, e.same_iff i j, has-put k j v d)

  pub put-All {μ} :
      (Q : K → Type μ) (k : K) (v : V) (d : Dict K V)
      → Q k
      → All (λ p. Q p.0) d
      → All (λ p. Q p.0) (put k v d)
  unfolding put
  put-All Q k v [] q h = (q, tt)
  put-All Q k v ((j, w) ∷ d) q h = elim (Bool-cases (j == k)) [
    | inl same ↦ rw same h
    | inr other ↦ rw other (h.0, put-All Q k v d q h.1)
  ]

  pub get_of_has : (k : K) (d : Dict K V) → has k d ≡ true → (v : V) × (get k d ≡ some v)
  unfolding get has
  get_of_has k ((j, v) ∷ d) h = elim (Bool-cases (j == k)) [
    | inl same ↦ (v, rw same)
    | inr other ↦ rw other (get_of_has k d (rw other at h))
  ]
  get_of_has k [] h = cc

  pub get_of_not_has : (k : K) (d : Dict K V) → has k d ≡ false → get k d ≡ none
  unfolding get has
  get_of_not_has k [] h = refl
  get_of_not_has k ((j, v) ∷ d) h = ground (arith, get_of_not_has k d)

  pub has_of_get : (k : K) (v : V) (d : Dict K V) → get k d ≡ some v → has k d ≡ true
  unfolding get has
  has_of_get k v [] h = cc
  has_of_get k v ((j, w) ∷ d) h = ground (arith, has_of_get k v d)

module _ {ℓ} {A : Type ℓ} ⦃e : Eq A⦄ where
  -- `a in s`
  unfoldable pub contains : A → List A → Bool
  contains a [] = false
  contains a (x ∷ xs) = x == a || contains a xs

  -- `s.add(a)`
  unfoldable pub add : A → List A → List A
  unfolding contains
  add a xs = if contains a xs then xs else xs ++ a ∷ []

  pub contains-append :
      (a : A) (xs ys : List A) → contains a (xs ++ ys) ≡ (contains a xs || contains a ys)
  unfolding contains
  contains-append a [] ys = refl
  contains-append a (x ∷ xs) ys = ground (arith, contains-append a xs ys)

  pub contains-add : (a b : A) (xs : List A) → contains b (add a xs) ≡ (a == b || contains b xs)
  unfolding add
  contains-add a b xs = elim (Bool-cases (contains a xs)) [
    | inl old ↦ rw old (ground (arith, old, e.same_iff a b))
    | inr new ↦ rw new (rw contains-append (ground arith))
  ]

  -- No element stands twice.
  abbrev pub IsUnique : List A → Type 0
  IsUnique [] = Unit
  IsUnique (x ∷ xs) = (contains x xs ≡ false) × IsUnique xs

  pub IsUnique-snoc :
      (a : A) (xs : List A) → contains a xs ≡ false → IsUnique xs → IsUnique (xs ++ a ∷ [])
  unfolding contains
  IsUnique-snoc a [] h u = (refl, tt)
  IsUnique-snoc a (x ∷ xs) h u = (
    rw contains-append (ground (arith, e.same_iff x a, e.same_iff a x)),
    IsUnique-snoc a xs (ground arith) u.1,
  )

  pub add-IsUnique : (a : A) (xs : List A) → IsUnique xs → IsUnique (add a xs)
  unfolding add
  add-IsUnique a xs u = elim (Bool-cases (contains a xs)) [
    | inl old ↦ rw old u
    | inr new ↦ rw new (IsUnique-snoc a xs new u)
  ]

module _ {ℓ κ} {A : Type ℓ} {B : Type κ} where
  pub map-snoc : (f : A → B) (xs : List A) (a : A) → map f (xs ++ a ∷ []) ≡ map f xs ++ f a ∷ []
  map-snoc f [] a = refl
  map-snoc f (x ∷ xs) a = rw (map-snoc f xs a)
