-- ===== src/Sigdb/Struct/RoundTrip.antt =====
-- Unpacking gives back what was packed, record by record.
use mathlib.Core.Path.{subst}
use mathlib.Core.List.{append_assoc}
use mathlib.Core.Option.{some-injective}
use ngfw_policy.Prelude.{
  ℕ, zero, suc, ◌+◌, ◌*◌, ◌/◌, ◌<◌, ◌≡◌, refl, sym, ap, ◌∙◌, List, [], ◌∷◌, ◌++◌, Option, none,
  some, ltb, length, arith, length-append, All, take-append_left, drop-append_left, inl, inr,
  Bool-cases,
}
use ngfw_policy.Sigdb.Struct.{
  Field, uint, raw, Value, num, bytes, le_bytes, le_value, width, calcsize, limit, pad, pack_field,
  ◌+?◌, pack, unpack_field, unpack_fields, unpack, slice, pack_rows, read_rows,
}

length-le_bytes : (w v : ℕ) → length (le_bytes w v) ≡ w
unfolding le_bytes
length-le_bytes zero v = refl
length-le_bytes (suc w) v = ap suc (length-le_bytes w (v / 256))

-- A number below the limit of its field comes back.
le_value-le_bytes : (w v : ℕ) → v < limit w → le_value (le_bytes w v) ≡ v
unfolding le_value le_bytes limit
le_value-le_bytes zero v h = omega arith
le_value-le_bytes (suc w) v h = omega (arith, le_value-le_bytes w (v / 256) (omega arith))

length-pad : (n : ℕ) (l : List ℕ) → length (pad n l) ≡ n
unfolding pad
length-pad zero l = refl
length-pad (suc n) [] = ap suc (length-pad n [])
length-pad (suc n) (b ∷ l) = ap suc (length-pad n l)

pad-eq_self : (n : ℕ) (l : List ℕ) → length l ≡ n → pad n l ≡ l
unfolding pad
pad-eq_self zero [] h = refl
pad-eq_self zero (b ∷ l) h = absurd (omega arith)
pad-eq_self (suc n) [] h = absurd (omega arith)
pad-eq_self (suc n) (b ∷ l) h = ap (λ t. b ∷ t) (pad-eq_self n l (omega arith))

-- A string value has the length of its field.
abbrev pub Fits : Field → Value → Type 0
Fits (raw n) (bytes l) = length l ≡ n
Fits _ _ = Unit

abbrev pub FitsRow : List Field → List Value → Type 0
FitsRow (f ∷ fmt) (v ∷ vs) = Fits f v × FitsRow fmt vs
FitsRow _ _ = Unit

pack_field_lem :
    (f : Field) (v : Value) (l : List ℕ)
    → Fits f v
    → pack_field f v ≡ some l
    → (length l ≡ width f) × (unpack_field f l ≡ v)
unfolding pack_field
pack_field_lem (uint w) (num v) l fit h = elim (Bool-cases (ltb v (limit w))) [
  | inl small ↦
      subst (λ (l : List ℕ). (length l ≡ w) × (num (le_value l) ≡ num v))
        (some-injective _ _ (rw small at h))
        (length-le_bytes w v, ap num (le_value-le_bytes w v (ground arith)))
  | inr large ↦ absurd (cc (rw large at h))
]
pack_field_lem (raw n) (bytes s) l fit h =
    subst (λ (l : List ℕ). (length l ≡ n) × (bytes l ≡ bytes s)) (some-injective _ _ h)
      (length-pad n s, ap bytes (pad-eq_self n s fit))
pack_field_lem (uint w) (bytes s) l fit h = cc
pack_field_lem (raw n) (num v) l fit h = cc

-- A sum of parts that succeeded has both parts.
pub +?_some :
    (a b : Option (List ℕ)) {l : List ℕ}
    → (a +? b) ≡ some l
    → (x : List ℕ) × (y : List ℕ) × (a ≡ some x) × (b ≡ some y) × (l ≡ x ++ y)
+?_some none b h = cc
+?_some (some x) none h = cc
+?_some (some x) (some y) h = (x, y, refl, refl, sym (some-injective _ _ h))

pub pack_lem :
    (fmt : List Field) (vs : List Value) (l : List ℕ)
    → FitsRow fmt vs
    → pack fmt vs ≡ some l
    → (length l ≡ calcsize fmt) × (unpack_fields fmt l ≡ vs)
unfolding pack unpack_fields
pack_lem [] [] l fit h =
    subst (λ (l : List ℕ). (length l ≡ 0) × (◌≡◌ {A = List Value} [] [])) (some-injective _ _ h)
      (refl, refl)
pack_lem [] (v ∷ vs) l fit h = cc
pack_lem (f ∷ fmt) [] l fit h = cc
pack_lem (f ∷ fmt) (v ∷ vs) l fit h =
    let (x, y, ex, ey, el) = +?_some (pack_field f v) (pack fmt vs) h in
    let (len_x, val_x) = pack_field_lem f v x fit.0 ex in
    let (len_y, val_y) = pack_lem fmt vs y fit.1 ey in
    (
      rw (el, length-append x y) (omega (arith, len_x, len_y)),
      rw (el, ← len_x, take-append_left x y, drop-append_left x y, val_x, val_y) refl,
    )

-- `unpack` undoes `pack`.
pub unpack-pack :
    (fmt : List Field) (vs : List Value) (l : List ℕ)
    → FitsRow fmt vs
    → pack fmt vs ≡ some l
    → unpack fmt l ≡ some vs
unfolding unpack
unpack-pack fmt vs l fit h = let (len, val) = pack_lem fmt vs l fit h in ground (arith, len, val)

-- What stands in the middle of a file is read at its offset.
pub slice-append_middle :
    (pre mid post : List ℕ) → slice (pre ++ (mid ++ post)) (length pre) (length mid) ≡ mid
slice-append_middle pre mid post =
    rw (drop-append_left pre (mid ++ post), take-append_left mid post) refl

abbrev pub FitRows : List Field → List (List Value) → Type 0
FitRows fmt = All (λ row. FitsRow fmt row)

read_rows-step :
    (fmt : List Field) (b : List ℕ) (off i n : ℕ) (row : List Value) (rows : List (List Value))
    → unpack fmt (slice b (off + i * calcsize fmt) (calcsize fmt)) ≡ some row
    → read_rows fmt b off (i + 1) n ≡ some rows
    → read_rows fmt b off i (suc n) ≡ some (row ∷ rows)
unfolding read_rows
read_rows-step fmt b off i n row rows h k = rw (h, k, read_rows) refl

pack_rows-cons :
    (fmt : List Field) (row : List Value) (rows : List (List Value))
    → pack_rows fmt (row ∷ rows) ≡ (pack fmt row +? pack_rows fmt rows)
unfolding pack_rows
pack_rows-cons fmt row rows = refl

-- A table whose rows are packed without an error, byte strings having the length of their field,
-- is read back row by row from its place in a file, whatever stands before and behind it.
pub read_rows-pack_rows :
    (fmt : List Field) (rows : List (List Value)) (pre blob post b : List ℕ) (off i : ℕ)
    → FitRows fmt rows
    → pack_rows fmt rows ≡ some blob
    → b ≡ pre ++ (blob ++ post)
    → off + i * calcsize fmt ≡ length pre
    → read_rows fmt b off i (length rows) ≡ some rows
read_rows-pack_rows fmt [] pre blob post b off i fit h e at = unfold read_rows in refl
read_rows-pack_rows fmt (row ∷ rows) pre blob post b off i fit h e at =
    let (x, y, ex, ey, el) =
      +?_some (pack fmt row) (pack_rows fmt rows) (sym (pack_rows-cons fmt row rows) ∙ h) in
    let (len, val) = pack_lem fmt row x fit.0 ex in
    let here : b ≡ pre ++ (x ++ (y ++ post)) = e ∙ rw (el, append_assoc x y post) refl in
    read_rows-step fmt b off i (length rows) row rows
      (rw (here, at, ← len, slice-append_middle pre x (y ++ post)) (unpack-pack fmt row x fit.0 ex))
      (read_rows-pack_rows fmt rows (pre ++ x) y post b off (i + 1) fit.1 ey
        (here ∙ sym (append_assoc pre x (y ++ post)))
        (rw (length-append pre x) (omega (arith, at, len))))
