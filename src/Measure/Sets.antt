-- ===== src/Measure/Sets.antt =====
-- Python's sets as lists, and the sizes of their unions, differences and intersections.
use ngfw_policy.Prelude.{
  ◌+◌, ◌≤◌, ◌≡◌, refl, Bool, true, false, not, ◌||◌, ◌&&◌, List, [], ◌∷◌, ◌++◌, length, select,
  contains, add, IsUnique, All, contains-add, add-IsUnique, contains-append, length-append,
  if◌then◌else◌, Eq, ◌==◌, eq_refl, Bool-cases, inl, inr, arith, ap,
}

module _ {ℓ} {A : Type ℓ} ⦃e : Eq A⦄ where
  -- `a | b`
  unfoldable pub union : List A → List A → List A
  unfolding add
  union a [] = a
  union a (x ∷ b) = union (add x a) b

  -- `set(...)`
  abbrev pub set_of : List A → List A
  set_of = union []

  -- `a - b`
  unfoldable pub minus : List A → List A → List A
  unfolding select contains
  minus a b = select (λ x. not (contains x b)) a

  -- `a & b`
  unfoldable pub inter : List A → List A → List A
  unfolding select contains
  inter a b = select (λ x. contains x b) a

  -- `set().union(*sets)`
  unfoldable pub unions : List (List A) → List A
  unfolding union
  unions [] = []
  unions (s ∷ ss) = union s (unions ss)

  pub contains-union :
      (x : A) (a b : List A) → contains x (union a b) ≡ (contains x a || contains x b)
  unfolding union contains
  contains-union x a [] = ground arith
  contains-union x a (y ∷ b) = ground (arith, contains-union x (add y a) b, contains-add y x a)

  pub union-IsUnique : (a b : List A) → IsUnique a → IsUnique (union a b)
  unfolding union
  union-IsUnique a [] u = u
  union-IsUnique a (x ∷ b) u = union-IsUnique (add x a) b (add-IsUnique x a u)

  pub contains-select :
      (p : A → Bool) (x : A) (a : List A) → contains x (select p a) ≡ (p x && contains x a)
  unfolding select contains
  contains-select p x [] = ground arith
  contains-select p x (y ∷ a) = elim (Bool-cases (y == x)) [
    | inl same ↦ rw ((e.same_iff y x).0 same) (ground (arith, contains-select p x a, eq_refl x))
    | inr other ↦ ground (arith, contains-select p x a)
  ]

  pub select-IsUnique : (p : A → Bool) (a : List A) → IsUnique a → IsUnique (select p a)
  unfolding select
  select-IsUnique p [] u = tt
  select-IsUnique p (x ∷ a) u = elim (Bool-cases (p x)) [
    | inl kept ↦ rw kept (ground (arith, contains-select p x a), select-IsUnique p a u.1)
    | inr cut ↦ rw cut (select-IsUnique p a u.1)
  ]

  minus-snoc : (x : A) (a b : List A) → contains x b ≡ false → minus b (a ++ x ∷ []) ≡ minus b a
  unfolding minus select contains
  minus-snoc x a [] h = refl
  minus-snoc x a (y ∷ b) h =
      rw (contains-append y a (x ∷ []))
        (ground (arith, minus-snoc x a b, e.same_iff x y, e.same_iff y x))

  -- Each element of the second set that is new counts once.
  pub length-union :
      (a b : List A) → IsUnique b → length (union a b) ≡ length a + length (minus b a)
  unfolding union minus select add
  length-union a [] u = omega arith
  length-union a (x ∷ b) u = elim (Bool-cases (contains x a)) [
    | inl old ↦ rw old (length-union a b u.1)
    | inr new ↦ rw new (
        omega (
          arith,
          length-union (a ++ x ∷ []) b u.1,
          length-append a (x ∷ []),
          ap length (minus-snoc x a b u.0),
        ))
  ]

  remove : A → List A → List A
  remove x [] = []
  remove x (y ∷ a) = if y == x then a else y ∷ remove x a

  length-remove : (x : A) (a : List A) → contains x a ≡ true → length (remove x a) + 1 ≡ length a
  unfolding remove contains
  length-remove x [] h = cc
  length-remove x (y ∷ a) h = ground (arith, length-remove x a)

  contains-remove :
      (x z : A) (a : List A)
      → (x == z) ≡ false
      → contains z a ≡ true
      → contains z (remove x a) ≡ true
  unfolding remove contains
  contains-remove x z [] ne h = cc
  contains-remove x z (y ∷ a) ne h =
      ground (arith, contains-remove x z a, e.same_iff y x, e.same_iff y z, e.same_iff x z)

  contains-remove_each :
      (x : A) (a b : List A)
      → contains x b ≡ false
      → All (λ z. contains z a ≡ true) b
      → All (λ z. contains z (remove x a) ≡ true) b
  unfolding contains
  contains-remove_each x a [] h s = tt
  contains-remove_each x a (z ∷ b) h s = (
    contains-remove x z a (ground (arith, e.same_iff x z, e.same_iff z x)) s.0,
    contains-remove_each x a b (ground arith) s.1,
  )

  -- A set is not larger than one that holds all its elements.
  pub length-subset :
      (b a : List A) → IsUnique b → All (λ z. contains z a ≡ true) b → length b ≤ length a
  length-subset [] a u s = omega arith
  length-subset (x ∷ b) a u s = omega (
    arith,
    length-remove x a s.0,
    length-subset b (remove x a) u.1 (contains-remove_each x a b u.0 s.1),
  )
