-- ===== src/Sigdb/Pool/Strings.antt =====
-- Every interned string is read back from its offset, also when the pool has grown.
use mathlib.Core.List.{append_assoc}
use mathlib.Core.Option.{some-injective}
use ngfw_policy.Prelude.{
  ℕ, ◌<◌, ◌≡◌, refl, ap, Bool, true, List, [], ◌∷◌, ◌++◌, some, Text, get, get-put, list_eq, nat_eq,
  list_beq_iff, length, every, eqb, eq_refl, not, arith, All, Option-cases, inl, inr,
  drop-append_left, ◌==◌, Bool-cases,
}
use ngfw_policy.Sigdb.Pool.{
  encode_code, encode, Pool, empty_pool, intern, intern_all, until_zero, string_at,
}

-- A text that can stand in a pool: code points above zero.
abbrev pub IsStorable : Text → Type 0
IsStorable = All (λ c. 0 < c)

abbrev is_nonzero : ℕ → Bool
is_nonzero b = not (eqb b 0)

nonzero-encode_code : (c : ℕ) → 0 < c → every is_nonzero (encode_code c) ≡ true
unfolding every encode_code
nonzero-encode_code c h = ground arith

every-append :
    (p : ℕ → Bool) (xs ys : List ℕ)
    → every p xs ≡ true
    → every p ys ≡ true
    → every p (xs ++ ys) ≡ true
unfolding every
every-append p [] ys h k = k
every-append p (x ∷ xs) ys h k = ground (arith, every-append p xs ys)

nonzero-encode : (s : Text) → IsStorable s → every is_nonzero (encode s) ≡ true
unfolding encode
nonzero-encode [] h = unfold every in refl
nonzero-encode (c ∷ s) h =
    every-append is_nonzero (encode_code c) (encode s) (nonzero-encode_code c h.0)
      (nonzero-encode s h.1)

until_zero-append :
    (l post : List ℕ) → every is_nonzero l ≡ true → until_zero (l ++ 0 ∷ post) ≡ some l
unfolding until_zero every
until_zero-append [] post h = refl
until_zero-append (b ∷ l) post h = ground (arith, until_zero-append l post)

-- The encoded string stands at the offset, with a zero behind it.
pub record HasString (p : List ℕ) (s : Text) (off : ℕ) : Type 0 where
  pub pre : List ℕ
  pub post : List ℕ
  pub split : p ≡ pre ++ (encode s ++ 0 ∷ post)
  pub at : length pre ≡ off

pub string_at_lem :
    (p : List ℕ) (s : Text) (off : ℕ)
    → IsStorable s
    → HasString p s off
    → string_at p off ≡ some (encode s)
unfolding string_at
string_at_lem p s off ok h =
    rw (h.split, ← h.at, drop-append_left h.pre (encode s ++ 0 ∷ h.post))
      (until_zero-append (encode s) h.post (nonzero-encode s ok))

HasString-append :
    (p more : List ℕ) (s : Text) (off : ℕ) → HasString p s off → HasString (p ++ more) s off
HasString-append p more s off h = record {
  pre = h.pre;
  post = h.post ++ more;
  split =
      rw
        (
          h.split,
          append_assoc h.pre (encode s ++ 0 ∷ h.post) more,
          append_assoc (encode s) (0 ∷ h.post) more,
        )
        refl;
  at = h.at;
}

pub record IsPool (p : Pool) : Type 0 where
  pub stored : (s : Text) (off : ℕ) → get s p.offsets ≡ some off → HasString p.bytes s off

-- Offsets once handed out stay.
pub record Grows (p q : Pool) : Type 0 where
  pub kept : (s : Text) (off : ℕ) → get s p.offsets ≡ some off → get s q.offsets ≡ some off

pub empty_pool-IsPool : IsPool empty_pool
unfolding get
empty_pool-IsPool = record { stored = λ s off h. cc }

intern_lem :
    (s : Text) (p : Pool)
    → IsPool p
    → let (off, q) = intern s p in IsPool q × Grows p q × (get s q.offsets ≡ some off)
unfolding intern
intern_lem s p v = elim (Option-cases (get s p.offsets)) [
  | inr (off, old) ↦ rw (old, intern) (v, record { kept = λ j o h. h }, old)
  | inl new ↦
      let off = length p.bytes in
      rw (new, intern)
        (
          record {
            stored = λ j o h. elim (Bool-cases (s == j)) [
              | inl same ↦ record {
                pre = p.bytes;
                post = [];
                split = ap (λ t. p.bytes ++ (encode t ++ 0 ∷ [])) ((list_beq_iff s j).0 same);
                at = some-injective _ _ (rw (get-put, same) at h);
              }
              | inr other ↦ HasString-append p.bytes _ j o (v.stored j o (rw (get-put, other) at h))
            ];
          },
          record {
            kept = λ j o h. ground (arith, h, new, get-put s j off p.offsets, list_beq_iff s j);
          },
          rw (get-put, eq_refl s),
        )
]

-- Each name of a list with its offset.
abbrev pub AllAt : Pool → List Text → List ℕ → Type 0
AllAt p [] [] = Unit
AllAt p (s ∷ ss) (o ∷ os) = (get s p.offsets ≡ some o) × AllAt p ss os
AllAt p _ _ = ⊥

pub AllAt-Grows :
    {p q : Pool} (ss : List Text) (os : List ℕ) → Grows p q → AllAt p ss os → AllAt q ss os
AllAt-Grows [] [] g h = tt
AllAt-Grows [] (o ∷ os) g h = h
AllAt-Grows (s ∷ ss) [] g h = h
AllAt-Grows (s ∷ ss) (o ∷ os) g h = (g.kept s o h.0, AllAt-Grows ss os g h.1)

-- Interning a list keeps the pool, and leaves every name of the list at its offset.
pub intern_all_lem :
    (ss : List Text) (p : Pool)
    → IsPool p
    → let (os, q) = intern_all ss p in IsPool q × Grows p q × AllAt q ss os
unfolding intern_all
intern_all_lem [] p v = (v, record { kept = λ s o h. h }, tt)
intern_all_lem (s ∷ ss) p v =
    let (off, q) = intern s p in
    let (vq, gq, at) = intern_lem s p v in
    let (vr, gr, ats) = intern_all_lem ss q vq in
    (vr, record { kept = λ j o h. gr.kept j o (gq.kept j o h) }, (gr.kept s off at, ats))
