-- ===== src/Capture/Bytes.antt =====
-- Python's `struct` for the big-endian formats H and I; `none` is `struct.error`.
use ngfw_policy.Prelude.{
  ℕ, ◌/◌, ◌%◌, ◌<◌, ◌≡◌, refl, List, [], ◌∷◌, ◌++◌, Option, none, some, ltb, ltb→lt, length,
  if◌then◌else◌, Bool-cases, inl, inr, arith,
}

-- `struct.pack(">H", v)`
unfoldable pub be16 : ℕ → Option (List ℕ)
be16 v = if ltb v 65536 then some ((v / 256) ∷ (v % 256) ∷ []) else none

-- `struct.pack(">I", v)`
unfoldable pub be32 : ℕ → Option (List ℕ)
be32 v =
    if ltb v 4294967296
    then some ((v / 16777216) ∷ (v / 65536 % 256) ∷ (v / 256 % 256) ∷ (v % 256) ∷ [])
    else none

infixl 5 ◌>>=◌
-- What follows is done where the first part did not raise.
abbrev pub ◌>>=◌ {ℓ κ} : {A : Type ℓ} {B : Type κ} → Option A → (A → Option B) → Option B
none >>= f = none
some a >>= f = f a

-- `struct.pack(">H", len(x)) + x`
unfoldable pub prefixed : List ℕ → Option (List ℕ)
unfolding be16
prefixed x = be16 (length x) >>= λ n. some (n ++ x)

-- Its bytes, where the length fits.
abbrev pub sized : List ℕ → List ℕ
sized x = (length x / 256) ∷ (length x % 256) ∷ x

pub prefixed_fits : (x : List ℕ) → length x < 65536 → prefixed x ≡ some (sized x)
unfolding prefixed
prefixed_fits x h = ground arith

pub prefixed-some :
    (x : List ℕ) {y : List ℕ} → prefixed x ≡ some y → (length x < 65536) × (y ≡ sized x)
unfolding prefixed
prefixed-some x h = elim (Bool-cases (ltb (length x) 65536)) [
  | inl fits ↦ (ltb→lt _ _ fits, cc (rw fits at h))
  | inr long ↦ absurd (cc (rw long at h))
]

pub >>=_some {ℓ κ} :
    {A : Type ℓ} {B : Type κ} (m : Option A) (f : A → Option B) {b : B}
    → (m >>= f) ≡ some b
    → (a : A) × (m ≡ some a) × (f a ≡ some b)
>>=_some none f h = cc
>>=_some (some a) f h = (a, refl, h)

pub be16-some :
    (v : ℕ) {y : List ℕ} → be16 v ≡ some y → (v < 65536) × (y ≡ (v / 256) ∷ (v % 256) ∷ [])
unfolding be16
be16-some v h = elim (Bool-cases (ltb v 65536)) [
  | inl fits ↦ (ltb→lt _ _ fits, cc (rw fits at h))
  | inr large ↦ absurd (cc (rw large at h))
]

pub be32-some :
    (v : ℕ) {y : List ℕ}
    → be32 v ≡ some y
    → (v < 4294967296) × (y ≡ (v / 16777216) ∷ (v / 65536 % 256) ∷ (v / 256 % 256) ∷ (v % 256) ∷ [])
unfolding be32
be32-some v h = elim (Bool-cases (ltb v 4294967296)) [
  | inl fits ↦ (ltb→lt _ _ fits, cc (rw fits at h))
  | inr large ↦ absurd (cc (rw large at h))
]
