-- ===== src/Measure/Normalize.antt =====
-- `normalize` of tools/measure_corpus.py: the identity key of a display name.
use ngfw_policy.Prelude.{
  ◌≡◌, refl, true, not, List, [], ◌∷◌, ◌++◌, map, none, some, Text, codes, lower, strip, is_space,
  Dict, get, All, All-select, ◌==◌, contains, select, every, length, drop, if◌then◌else◌, list_eq,
  nat_eq, lower_code, Bool-cases, inl, inr, arith,
}
use ngfw_policy.Sigc.Slug.{is_alnum}
use ngfw_policy.Sigc.Load.Netify.{is_prefix}

-- `ACRONYMS`
abbrev acronyms : Dict Text Text
acronyms =
    (codes "ms", codes "microsoft")
    ∷ (codes "msn", codes "microsoft")
    ∷ (codes "aws", codes "amazon")
    ∷ (codes "gcp", codes "google")
    ∷ (codes "gdrive", codes "googledrive")
    ∷ (codes "yt", codes "youtube")
    ∷ (codes "fb", codes "facebook")
    ∷ (codes "ig", codes "instagram")
    ∷ (codes "ms365", codes "microsoft365")
    ∷ (codes "o365", codes "microsoft365")
    ∷ (codes "office365", codes "microsoft365")
    ∷ []

-- `STOPWORDS`
abbrev stopwords : List Text
stopwords =
    codes "protocol"
    ∷ codes "proto"
    ∷ codes "app"
    ∷ codes "application"
    ∷ codes "service"
    ∷ codes "services"
    ∷ codes "client"
    ∷ codes "server"
    ∷ codes "com"
    ∷ codes "net"
    ∷ codes "org"
    ∷ codes "inc"
    ∷ codes "the"
    ∷ []

abbrev put_word : Text → List Text → List Text
put_word [] ws = ws
put_word (c ∷ w) ws = (c ∷ w) ∷ ws

-- The run of [a-z0-9] at the start, and the words behind it.
runs : Text → Text × List Text
unfolding is_alnum
runs [] = ([], [])
runs (c ∷ s) =
    let (w, ws) = runs s in
    let inside : Text × List Text = (c ∷ w, ws) in
    let outside : Text × List Text = ([], put_word w ws) in if is_alnum c then inside else outside

-- `re.sub(r"[^a-z0-9]+", " ", s).split()`
unfoldable pub words : Text → List Text
unfolding runs
words s = let (w, ws) = runs s in put_word w ws

-- `re.sub(r"^ndpi_protocol_", "", s)`
unfoldable pub drop_prefix : Text → Text → Text
unfolding is_prefix
drop_prefix p s = if is_prefix p s then drop (length p) s else s

unfoldable pub expand : Text → Text
unfolding get
expand w = elim (get w acronyms) [ none ↦ w | some full ↦ full ]

-- `"".join(parts)`
unfoldable pub join : List Text → Text
join [] = []
join (w ∷ ws) = w ++ join ws

unfoldable pub normalize : Text → Text
unfolding words drop_prefix expand join strip lower_code select contains
normalize name =
    let s : Text = drop_prefix (codes "ndpi_protocol_") (lower (strip is_space name)) in
    join (map expand (select (λ w. not (contains w stopwords)) (words s)))

abbrev IsKey : Text → Type 0
IsKey w = every is_alnum w ≡ true

put_word-All : (w : Text) (ws : List Text) → IsKey w → All IsKey ws → All IsKey (put_word w ws)
put_word-All [] ws k h = h
put_word-All (c ∷ w) ws k h = (k, h)

runs-All : (s : Text) → IsKey (runs s).0 × All IsKey (runs s).1
unfolding runs every
runs-All [] = (refl, tt)
runs-All (c ∷ s) =
    let (k, h) = runs-All s in
    elim (Bool-cases (is_alnum c)) [
      | inl inside ↦ rw inside (rw inside k, h)
      | inr outside ↦ rw outside (refl, put_word-All (runs s).0 (runs s).1 k h)
    ]

get-All :
    (w : Text) (d : Dict Text Text)
    → All (λ e. IsKey e.1) d
    → IsKey w
    → IsKey (elim (get w d) [ none ↦ w | some full ↦ full ])
unfolding get
get-All w [] h k = k
get-All w ((j, v) ∷ d) h k = elim (Bool-cases (j == w)) [
  | inl same ↦ rw same h.0
  | inr other ↦ rw other (get-All w d h.1 k)
]

-- The full names of the acronyms are keys.
acronyms-All : All (λ e. IsKey e.1) acronyms
unfolding every is_alnum
acronyms-All =
    (refl, (refl, (refl, (refl, (refl, (refl, (refl, (refl, (refl, (refl, (refl, tt)))))))))))

every-append : (a b : Text) → IsKey a → IsKey b → IsKey (a ++ b)
unfolding every
every-append [] b h k = k
every-append (c ∷ a) b h k = ground (arith, every-append a b)

join-IsKey : (ws : List Text) → All IsKey ws → IsKey (join (map expand ws))
unfolding join expand every
join-IsKey [] h = refl
join-IsKey (w ∷ ws) h =
    every-append (expand w) (join (map expand ws)) (get-All w acronyms acronyms-All h.0)
      (join-IsKey ws h.1)

-- A normalized name consists of lower-case letters and digits, whatever the name.
pub normalize-IsKey : (name : Text) → every is_alnum (normalize name) ≡ true
unfolding normalize words
normalize-IsKey name =
    let s : Text = drop_prefix (codes "ndpi_protocol_") (lower (strip is_space name)) in
    let (k, h) = runs-All s in
    join-IsKey (select (λ w. not (contains w stopwords)) (words s)) (
      All-select IsKey (λ w. not (contains w stopwords)) (words s)
        (put_word-All (runs s).0 (runs s).1 k h))
