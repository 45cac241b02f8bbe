-- ===== src/Measure/Keys.antt =====
-- What the extractors give.
use ngfw_policy.Sigc.Load.OpenAppId.{odp_app_names}
use ngfw_policy.Prelude.{
  Bool, Dict, inl, inr, ℕ, ◌≡◌, true, List, [], ◌∷◌, map, Option, none, some, Text, All, All-snoc,
  add, contains, every, IsUnique, ◌++◌, Bool-cases, inl, inr, list_eq, nat_eq,
}
use ngfw_policy.Sigc.Slug.{is_alnum}
use ngfw_policy.Measure.Sets.{union, union-IsUnique}
use ngfw_policy.Measure.Normalize.{normalize, normalize-IsKey}
use ngfw_policy.Measure.Sources.{
  key_set, Measured, LuaFile, measure_openappid, extract_ndpi, extract_openappid,
  extract_odp_taxonomy, extract_mmt_dpi, extract_libprotoident,
}
use ngfw_policy.Measure.Netify.{extract_netify}

-- A set of texts of lower-case letters and digits.
abbrev pub AreKeys : List Text → Type 0
AreKeys ids = IsUnique ids × All (λ w. every is_alnum w ≡ true) ids

union-All : (P : Text → Type 0) (a b : List Text) → All P a → All P b → All P (union a b)
unfolding union add
union-All P a [] h k = h
union-All P a (x ∷ b) h k = elim (Bool-cases (contains x a)) [
  | inl old ↦ rw old (union-All P a b h k.1)
  | inr new ↦ rw new (union-All P (a ++ x ∷ []) b (All-snoc P a x h k.0) k.1)
]

normalized-All : (names : List Text) → All (λ w. every is_alnum w ≡ true) (map normalize names)
normalized-All [] = tt
normalized-All (n ∷ names) = (normalize-IsKey n, normalized-All names)

key_set-AreKeys : (names : List Text) → AreKeys (key_set names)
key_set-AreKeys names = (
  union-IsUnique [] (map normalize names) tt,
  union-All (λ w. every is_alnum w ≡ true) [] (map normalize names) tt (normalized-All names),
)

ndpi-AreKeys : (ids : Option (List Text)) (n : ℕ) → AreKeys (extract_ndpi ids n).0
unfolding extract_ndpi
ndpi-AreKeys none n = (tt, tt)
ndpi-AreKeys (some ids) n = search (key_set-AreKeys)

-- The same of an extractor that may raise.
abbrev pub AreKeysOf : Option Measured → Type 0
AreKeysOf none = Unit
AreKeysOf (some m) = AreKeys m.0

measure-AreKeys :
    (names : Dict ℕ Text) (lines : List Text) (files : List LuaFile)
    → AreKeys (measure_openappid names lines files).0
unfolding measure_openappid
measure-AreKeys names lines files = search (key_set-AreKeys)

named-AreKeys :
    (names : Option (Dict ℕ Text)) (lines : List Text) (files : List LuaFile)
    → AreKeysOf
        (elim names [ none ↦ none | some names ↦ some (measure_openappid names lines files) ])
named-AreKeys none lines files = tt
named-AreKeys (some names) lines files = measure-AreKeys names lines files

openappid-AreKeys :
    (is_digits : Text → Bool) (int_of : Text → Option ℕ) (odp : Option (List Text × List LuaFile))
    → AreKeysOf (extract_openappid is_digits int_of odp)
unfolding extract_openappid
openappid-AreKeys is_digits int_of none = (tt, tt)
openappid-AreKeys is_digits int_of (some (lines, files)) =
    named-AreKeys (odp_app_names is_digits int_of lines) lines files

netify-AreKeys : (lines : Option (List Text)) → AreKeys (extract_netify lines).0
unfolding extract_netify
netify-AreKeys none = (tt, tt)
netify-AreKeys (some lines) = search (key_set-AreKeys)

mmt-AreKeys : (protos : Option (List Text)) → AreKeys (extract_mmt_dpi protos).0
unfolding extract_mmt_dpi
mmt-AreKeys none = (tt, tt)
mmt-AreKeys (some protos) = search (key_set-AreKeys)

lpi-AreKeys : (stems : Option (List Text × List Text)) → AreKeys (extract_libprotoident stems).0
unfolding extract_libprotoident
lpi-AreKeys none = (tt, tt)
lpi-AreKeys (some stems) = search (key_set-AreKeys)

taxonomy-AreKeys : (lines : Option (List Text)) → AreKeys (extract_odp_taxonomy lines).0
unfolding extract_odp_taxonomy
taxonomy-AreKeys none = (tt, tt)
taxonomy-AreKeys (some lines) = search (key_set-AreKeys)

-- Every extractor, the tree being vendored or not, gives, unless it raises, a list without repetition of texts of
-- lower-case letters and digits.
pub extracted-AreKeys :
    (is_digits : Text → Bool) (int_of : Text → Option ℕ) (ids : Option (List Text)) (dissectors : ℕ)
    (odp : Option (List Text × List LuaFile)) (conf protos : Option (List Text))
    (stems : Option (List Text × List Text)) (mapping : Option (List Text))
    → AreKeys (extract_ndpi ids dissectors).0
      × AreKeysOf (extract_openappid is_digits int_of odp)
      × AreKeys (extract_netify conf).0
      × AreKeys (extract_mmt_dpi protos).0
      × AreKeys (extract_libprotoident stems).0
      × AreKeys (extract_odp_taxonomy mapping).0
extracted-AreKeys is_digits int_of ids dissectors odp conf protos stems mapping = (
  ndpi-AreKeys ids dissectors,
  openappid-AreKeys is_digits int_of odp,
  netify-AreKeys conf,
  mmt-AreKeys protos,
  lpi-AreKeys stems,
  taxonomy-AreKeys mapping,
)
