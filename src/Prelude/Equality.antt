-- ===== src/Prelude/Equality.antt =====
-- Equality tests of Python's `==` on numbers, texts and tuples, as an interface with its law.
use mathlib.Core.Path.{◌≡◌, refl}
use mathlib.Core.Logic.{◌↔◌}
use mathlib.Core.Bool.{Bool, true, false, ◌&&◌}
use mathlib.Core.List.{List, [], ◌∷◌}
use native.Mathlib.Omega.{arith}
use Prim.Native.Nat.{ℕ}
use ngfw_policy.Prelude.Tests.{eqb, eqb_iff}

pub record Eq {ℓ} (A : Type ℓ) : Type ℓ where
  pub same : A → A → Bool
  pub same_iff : (a b : A) → (same a b ≡ true) ↔ (a ≡ b)

instance abbrev pub nat_eq : Eq ℕ
nat_eq = record { same = eqb; same_iff = eqb_iff }

infix 50 ◌==◌
abbrev pub ◌==◌ {ℓ} : {A : Type ℓ} ⦃e : Eq A⦄ (x y : A) → Bool
◌==◌ ⦃e⦄ x y = e.same x y

module _ {ℓ} {A : Type ℓ} ⦃e : Eq A⦄ where
  unfoldable pub list_beq : List A → List A → Bool
  list_beq [] [] = true
  list_beq [] (y ∷ ys) = false
  list_beq (x ∷ xs) [] = false
  list_beq (x ∷ xs) (y ∷ ys) = x == y && list_beq xs ys

  pub list_beq_iff : (xs ys : List A) → (list_beq xs ys ≡ true) ↔ (xs ≡ ys)
  unfolding list_beq
  list_beq_iff [] [] = (λ _. refl, λ _. refl)
  list_beq_iff [] (y ∷ ys) = (λ h. cc, λ h. cc)
  list_beq_iff (x ∷ xs) [] = (λ h. cc, λ h. cc)
  list_beq_iff (x ∷ xs) (y ∷ ys) = ground (arith, e.same_iff x y, list_beq_iff xs ys)

  instance abbrev pub list_eq : Eq (List A)
  list_eq = record { same = list_beq; same_iff = list_beq_iff }

module _ {ℓ κ} {A : Type ℓ} {B : Type κ} ⦃e : Eq A⦄ ⦃f : Eq B⦄ where
  abbrev pub pair_beq : A × B → A × B → Bool
  pair_beq (a, b) (a', b') = a == a' && b == b'

  pub pair_beq_iff : (p q : A × B) → (pair_beq p q ≡ true) ↔ (p ≡ q)
  pair_beq_iff (a, b) (a', b') = ground (arith, e.same_iff a a', f.same_iff b b')

  instance abbrev pub pair_eq : Eq (A × B)
  pair_eq = record { same = pair_beq; same_iff = pair_beq_iff }

module _ {ℓ κ μ} {A : Type ℓ} {B : Type κ} {C : Type μ} ⦃e : Eq A⦄ ⦃f : Eq B⦄ ⦃g : Eq C⦄ where
  abbrev pub triple_beq : A × B × C → A × B × C → Bool
  triple_beq (a, b, c) (a', b', c') = a == a' && b == b' && c == c'

  pub triple_beq_iff : (p q : A × B × C) → (triple_beq p q ≡ true) ↔ (p ≡ q)
  triple_beq_iff (a, b, c) (a', b', c') =
      ground (arith, e.same_iff a a', f.same_iff b b', g.same_iff c c')

  instance abbrev pub triple_eq : Eq (A × B × C)
  triple_eq = record { same = triple_beq; same_iff = triple_beq_iff }

module _ {ℓ κ μ ν} {A : Type ℓ} {B : Type κ} {C : Type μ} {D : Type ν} ⦃e : Eq A⦄ ⦃f : Eq B⦄
    ⦃g : Eq C⦄ ⦃h : Eq D⦄ where
  abbrev pub quad_beq : A × B × C × D → A × B × C × D → Bool
  quad_beq (a, b, c, d) (a', b', c', d') = a == a' && b == b' && c == c' && d == d'

  pub quad_beq_iff : (p q : A × B × C × D) → (quad_beq p q ≡ true) ↔ (p ≡ q)
  quad_beq_iff (a, b, c, d) (a', b', c', d') =
      ground (arith, e.same_iff a a', f.same_iff b b', g.same_iff c c', h.same_iff d d')

  instance abbrev pub quad_eq : Eq (A × B × C × D)
  quad_eq = record { same = quad_beq; same_iff = quad_beq_iff }

pub eq_refl {ℓ} : {A : Type ℓ} ⦃e : Eq A⦄ (a : A) → (a == a) ≡ true
eq_refl ⦃e⦄ a = (e.same_iff a a).1 refl
