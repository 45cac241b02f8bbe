-- ===== src/Capture/Checksum.antt =====
-- `ip_checksum` of tools/mkpcap.py, which is also `checksum` of tools/mkproto_pcap.py.
use ngfw_policy.Prelude.{
  ℕ, zero, suc, ◌+◌, ◌-◌, ◌*◌, ◌/◌, ◌%◌, ◌≤◌, ◌<◌, ◌≡◌, refl, ap, List, [], ◌∷◌, ◌++◌, ltb, ltb→lt,
  length, Bool-cases, if◌then◌else◌, inl, inr, arith,
}

-- The sum of the 16-bit words; an odd last byte is followed by the zero that the code appends.
unfoldable pub word_sum : List ℕ → ℕ
word_sum [] = 0
word_sum (a ∷ []) = a * 256 + 0
word_sum (a ∷ b ∷ l) = (a * 256 + b) + word_sum l

-- `while total >> 16: total = (total & 0xFFFF) + (total >> 16)`, on fuel
unfoldable pub fold_carries : ℕ → ℕ → ℕ
fold_carries zero total = total
fold_carries (suc fuel) total =
    let rest = fold_carries fuel (total % 65536 + total / 65536) in
    if ltb total 65536 then total else rest

-- `ip_checksum`: `(~total) & 0xFFFF` behind the loop. The sum itself is enough fuel.
unfoldable pub ip_checksum : List ℕ → ℕ
unfolding word_sum fold_carries
ip_checksum l = 65535 - fold_carries (word_sum l) (word_sum l) % 65536

-- The loop ends: a sum at least is enough fuel, and the result has no carry, keeps the value modulo
-- 65535, and is zero only for zero.
fold_carries_lem :
    (fuel total : ℕ)
    → total ≤ fuel
    → (fold_carries fuel total < 65536)
      × (fold_carries fuel total % 65535 ≡ total % 65535)
      × (0 < total → 0 < fold_carries fuel total)
unfolding fold_carries
fold_carries_lem zero total h = (omega arith, refl, λ p. p)
fold_carries_lem (suc fuel) total h = elim (Bool-cases (ltb total 65536)) [
  | inl small ↦ rw small (ltb→lt _ _ small, refl, λ p. p)
  | inr large ↦
      let big : 65536 ≤ total = ground arith in
      let (ends, same, positive) =
        fold_carries_lem fuel (total % 65536 + total / 65536) (omega arith) in
      rw large (ends, omega (arith, same), λ p. positive (omega arith))
]

-- The one's complement of a sum completes it to a sum whose folded value has all bits set.
complement_lem :
    (total : ℕ)
    → let ck = 65535 - fold_carries total total % 65536 in
      fold_carries (total + ck) (total + ck) ≡ 65535
complement_lem zero = unfold fold_carries in refl
complement_lem (suc t) =
    let total : ℕ = suc t in
    let ck : ℕ = 65535 - fold_carries total total % 65536 in
    let (small, same, positive) = fold_carries_lem total total (omega arith) in
    let (small', same', positive') = fold_carries_lem (total + ck) (total + ck) (omega arith) in
    omega (arith, small, same, positive (omega arith), small', same', positive' (omega arith))

-- The words and the checksum add up to a multiple of 65535, the zero of one's complement.
pub ip_checksum-sum : (l : List ℕ) → (word_sum l + ip_checksum l) % 65535 ≡ 0
unfolding ip_checksum
ip_checksum-sum l =
    let (small, same, positive) = fold_carries_lem (word_sum l) (word_sum l) (omega arith) in
    omega (arith, small, same)

-- A checksum fits into its two bytes.
pub ip_checksum_lt : (l : List ℕ) → ip_checksum l < 65536
unfolding ip_checksum
ip_checksum_lt l = omega arith

-- The words before and behind two bytes at an even place add up.
word_sum-append :
    (n : ℕ) (pre l : List ℕ) → length pre ≡ n + n → word_sum (pre ++ l) ≡ word_sum pre + word_sum l
unfolding word_sum
word_sum-append zero [] l h = omega arith
word_sum-append zero (a ∷ pre) l h = absurd (omega arith)
word_sum-append (suc n) [] l h = absurd (omega arith)
word_sum-append (suc n) (a ∷ []) l h = absurd (omega arith)
word_sum-append (suc n) (a ∷ b ∷ pre) l h = omega (arith, word_sum-append n pre l (omega arith))

-- A header whose checksum was computed with zeros in its place, at an even offset, verifies: with the
-- checksum written there, high byte first, the checksum of the whole is 0.
pub ip_checksum-verifies :
    (n : ℕ) (pre post : List ℕ)
    → length pre ≡ n + n
    → let ck = ip_checksum (pre ++ (0 ∷ 0 ∷ post)) in
      ip_checksum (pre ++ ((ck / 256) ∷ (ck % 256) ∷ post)) ≡ 0
unfolding ip_checksum word_sum
ip_checksum-verifies n pre post h =
    let total : ℕ = word_sum (pre ++ (0 ∷ 0 ∷ post)) in
    let ck : ℕ = 65535 - fold_carries total total % 65536 in
    let filled : ℕ = word_sum (pre ++ ((ck / 256) ∷ (ck % 256) ∷ post)) in
    let sums : filled ≡ total + ck = omega (
      arith,
      word_sum-append n pre (0 ∷ 0 ∷ post) h,
      word_sum-append n pre ((ck / 256) ∷ (ck % 256) ∷ post) h,
    ) in
    omega (arith, ap (λ (t : ℕ). fold_carries t t) sums, complement_lem total)
