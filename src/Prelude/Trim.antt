-- ===== src/Prelude/Trim.antt =====
-- Laws of `strip`, `lstrip` and `rstrip`: what they remove, what they leave alone, when they do
-- nothing.
use Prim.Native.Nat.{ℕ}
use mathlib.Core.Path.{◌≡◌, refl}
use mathlib.Core.Bool.{Bool, true, false}
use mathlib.Core.List.{[], ◌∷◌}
use native.Mathlib.Omega.{arith}
use ngfw_policy.Prelude.Tests.{eqb}
use ngfw_policy.Prelude.Lists.{is_nil, every}
use ngfw_policy.Prelude.Chars.{Text, lstrip, rstrip, strip, head_is, last_is, has_double}

module _ (p : ℕ → Bool) where
  pub head_is-lstrip : (s : Text) → head_is p (lstrip p s) ≡ false
  unfolding head_is lstrip
  head_is-lstrip [] = refl
  head_is-lstrip (c ∷ s) = ground (arith, head_is-lstrip s)

  pub is_nil-rstrip : (s : Text) → is_nil s ≡ true → is_nil (rstrip p s) ≡ true
  unfolding rstrip
  is_nil-rstrip [] h = refl
  is_nil-rstrip (c ∷ s) h = cc

  pub last_is-rstrip : (s : Text) → last_is p (rstrip p s) ≡ false
  unfolding last_is rstrip
  last_is-rstrip [] = refl
  last_is-rstrip (c ∷ s) = ground (arith, last_is-rstrip s)

  pub head_is-rstrip :
      (q : ℕ → Bool) (s : Text) → head_is q s ≡ false → head_is q (rstrip p s) ≡ false
  unfolding head_is rstrip
  head_is-rstrip q [] h = refl
  head_is-rstrip q (c ∷ s) h = ground arith

  pub lstrip-eq_self : (s : Text) → head_is p s ≡ false → lstrip p s ≡ s
  unfolding head_is lstrip
  lstrip-eq_self [] h = refl
  lstrip-eq_self (c ∷ s) h = ground arith

  pub rstrip-eq_self : (s : Text) → last_is p s ≡ false → rstrip p s ≡ s
  unfolding last_is rstrip
  rstrip-eq_self [] h = refl
  rstrip-eq_self (c ∷ []) h = ground arith
  rstrip-eq_self (c ∷ d ∷ s) h = let ih = rstrip-eq_self (d ∷ s) h in rw ih (ground arith)

  pub every-lstrip : (q : ℕ → Bool) (s : Text) → every q s ≡ true → every q (lstrip p s) ≡ true
  unfolding every lstrip
  every-lstrip q [] h = refl
  every-lstrip q (c ∷ s) h = ground (arith, every-lstrip q s)

  pub every-rstrip : (q : ℕ → Bool) (s : Text) → every q s ≡ true → every q (rstrip p s) ≡ true
  unfolding every rstrip
  every-rstrip q [] h = refl
  every-rstrip q (c ∷ s) h = ground (arith, every-rstrip q s)

  pub has_double-lstrip :
      (d : ℕ) (s : Text) → has_double d s ≡ false → has_double d (lstrip p s) ≡ false
  unfolding has_double lstrip
  has_double-lstrip d [] h = refl
  has_double-lstrip d (c ∷ s) h = ground (arith, has_double-lstrip d s)

  pub has_double-rstrip :
      (d : ℕ) (s : Text) → has_double d s ≡ false → has_double d (rstrip p s) ≡ false
  unfolding has_double rstrip
  has_double-rstrip d [] h = refl
  has_double-rstrip d (c ∷ s) h =
      ground (arith, has_double-rstrip d s, head_is-rstrip (λ x. eqb x d) s)

  pub strip-eq_self : (s : Text) → head_is p s ≡ false → last_is p s ≡ false → strip p s ≡ s
  unfolding strip
  strip-eq_self s h k = rw (lstrip-eq_self s h) (rstrip-eq_self s k)

  pub head_is-strip : (s : Text) → head_is p (strip p s) ≡ false
  head_is-strip s = unfold strip in head_is-rstrip p (lstrip p s) (head_is-lstrip s)

  pub last_is-strip : (s : Text) → last_is p (strip p s) ≡ false
  last_is-strip s = unfold strip in last_is-rstrip (lstrip p s)
