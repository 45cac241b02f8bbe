-- ===== src/Sigdb/Struct.antt =====
-- Python's `struct` for the little-endian formats of the .sigdb file: unsigned integers of a number
-- of bytes (B, H, I, Q) and byte strings of a fixed length (4s, 16s). `none` is `struct.error`.
pub mod RoundTrip
use ngfw_policy.Prelude.{
  ℕ, zero, suc, ◌+◌, ◌*◌, ◌/◌, ◌%◌, ◌^◌, Bool, true, false, List, [], ◌∷◌, ◌++◌, Option, none, some,
  ltb, eqb, length, take, drop, if◌then◌else◌,
}

pub data Field : Type 0 where
  uint : ℕ → Field
  raw : ℕ → Field

pub data Value : Type 0 where
  num : ℕ → Value
  bytes : List ℕ → Value

abbrev pub u8 : Field
u8 = uint 1

abbrev pub u16 : Field
u16 = uint 2

abbrev pub u32 : Field
u32 = uint 4

abbrev pub u64 : Field
u64 = uint 8

-- The `w` bytes of a number, the low one first.
unfoldable pub le_bytes : ℕ → ℕ → List ℕ
le_bytes zero v = []
le_bytes (suc w) v = (v % 256) ∷ le_bytes w (v / 256)

-- The number of little-endian bytes.
unfoldable pub le_value : List ℕ → ℕ
le_value [] = 0
le_value (b ∷ bs) = b + 256 * le_value bs

abbrev pub width : Field → ℕ
width (uint w) = w
width (raw n) = n

-- `struct.calcsize`
abbrev pub calcsize : List Field → ℕ
calcsize [] = 0
calcsize (f ∷ fmt) = width f + calcsize fmt

-- The largest number of a field plus one.
unfoldable pub limit : ℕ → ℕ
limit zero = 1
limit (suc w) = 256 * limit w

-- A number out of range is refused; a string is cut or filled with zeros to its length.
unfoldable pub pad : ℕ → List ℕ → List ℕ
pad zero l = []
pad (suc n) [] = 0 ∷ pad n []
pad (suc n) (b ∷ l) = b ∷ pad n l

unfoldable pub pack_field : Field → Value → Option (List ℕ)
unfolding le_bytes limit pad
pack_field (uint w) (num v) = if ltb v (limit w) then some (le_bytes w v) else none
pack_field (raw n) (bytes l) = some (pad n l)
pack_field _ _ = none

infixr 66 ◌+?◌
-- Two parts that may have failed, one behind the other.
abbrev pub ◌+?◌ : Option (List ℕ) → Option (List ℕ) → Option (List ℕ)
a +? b = elim a [ none ↦ none | some x ↦ elim b [ none ↦ none | some y ↦ some (x ++ y) ] ]

-- `struct.pack`
unfoldable pub pack : List Field → List Value → Option (List ℕ)
unfolding pack_field
pack [] [] = some []
pack (f ∷ fmt) (v ∷ vs) = pack_field f v +? pack fmt vs
pack _ _ = none

abbrev unpack_field : Field → List ℕ → Value
unpack_field (uint w) l = num (le_value l)
unpack_field (raw n) l = bytes l

unfoldable pub unpack_fields : List Field → List ℕ → List Value
unfolding le_value
unpack_fields [] l = []
unpack_fields (f ∷ fmt) l = unpack_field f (take (width f) l) ∷ unpack_fields fmt (drop (width f) l)

-- `struct.unpack`: the buffer has exactly the size of the format
unfoldable pub unpack : List Field → List ℕ → Option (List Value)
unfolding unpack_fields
unpack fmt l = if eqb (length l) (calcsize fmt) then some (unpack_fields fmt l) else none

-- `b[off:off + n]`
abbrev pub slice : List ℕ → ℕ → ℕ → List ℕ
slice b off n = take n (drop off b)

-- The records of a table, packed one behind the other.
unfoldable pub pack_rows : List Field → List (List Value) → Option (List ℕ)
unfolding pack
pack_rows fmt [] = some []
pack_rows fmt (row ∷ rows) = pack fmt row +? pack_rows fmt rows

-- `for i in range(n): unpack(fmt, b[off + i * size : off + i * size + size])`
unfoldable pub read_rows : List Field → List ℕ → ℕ → ℕ → ℕ → Option (List (List Value))
unfolding unpack
read_rows fmt b off i zero = some []
read_rows fmt b off i (suc n) =
    let rest = read_rows fmt b off (i + 1) n in
    elim (unpack fmt (slice b (off + i * calcsize fmt) (calcsize fmt))) [
      | none ↦ none
      | some row ↦ elim rest [ none ↦ none | some rows ↦ some (row ∷ rows) ]
    ]
