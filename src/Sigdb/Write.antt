-- ===== src/Sigdb/Write.antt =====
-- `Builder.serialize` of tools/sigc.py. The clock is the argument `now`; `none` is the
-- `struct.error` of a number that its field cannot hold.
pub mod Kept
use ngfw_policy.Prelude.{
  ℕ, ◌+◌, Bool, true, false, ◌&&◌, List, [], ◌∷◌, ◌++◌, Option, none, some, Text, map, select,
  contains, nat_eq, list_eq, leb, length, if◌then◌else◌,
}
use ngfw_policy.Sigc.Builder.{Builder, Meta, DomainRule, CidrRule, PayloadRule}
use ngfw_policy.Sigdb.Struct.{
  Field, Value, num, bytes, raw, u8, u16, u32, u64, calcsize, pack, pack_rows, ◌+?◌,
}
use ngfw_policy.Sigdb.Pool.{Pool, empty_pool, intern_all}

abbrev pub magic : ℕ
magic = 0x4457474e

abbrev pub version : ℕ
version = 3

abbrev pub hdr_fmt : List Field
hdr_fmt = u32 ∷ u32 ∷ u32 ∷ u32 ∷ u32 ∷ u32 ∷ u32 ∷ u32 ∷ u64 ∷ u32 ∷ u32 ∷ u32 ∷ u32 ∷ []

abbrev pub app_fmt : List Field
app_fmt = u32 ∷ u32 ∷ u16 ∷ u8 ∷ u8 ∷ []

abbrev pub dom_fmt : List Field
dom_fmt = u32 ∷ u32 ∷ u8 ∷ u8 ∷ u8 ∷ u8 ∷ []

abbrev pub cidr_fmt : List Field
cidr_fmt = raw 16 ∷ u32 ∷ u8 ∷ u8 ∷ u8 ∷ u8 ∷ u8 ∷ raw 3 ∷ []

abbrev pub pay_fmt : List Field
pay_fmt = raw 4 ∷ raw 4 ∷ u32 ∷ u8 ∷ u8 ∷ u8 ∷ u8 ∷ []

-- `sorted(apps)`: ids are the keys of a dict, so they alone decide
unfoldable pub insert_app : ℕ × Meta → List (ℕ × Meta) → List (ℕ × Meta)
insert_app a [] = a ∷ []
insert_app a (x ∷ xs) = if leb a.0 x.0 then a ∷ x ∷ xs else x ∷ insert_app a xs

unfoldable pub sort_apps : List (ℕ × Meta) → List (ℕ × Meta)
unfolding insert_app
sort_apps [] = []
sort_apps (x ∷ xs) = insert_app x (sort_apps xs)

-- What a build of the license tier may ship: the apps, and the rules of these apps.
unfoldable pub kept_apps : ℕ → Builder → List (ℕ × Meta)
unfolding select sort_apps
kept_apps max b = sort_apps (select (λ a. leb a.1.license max) b.app_meta)

unfoldable pub is_kept : ℕ → Builder → ℕ → Bool
unfolding contains kept_apps
is_kept max b aid = contains aid (map (λ a. a.0) (kept_apps max b))

unfoldable pub kept_domains : ℕ → Builder → List DomainRule
unfolding is_kept select
kept_domains max b =
    select (λ d. is_kept max b d.app_id) (select (λ d. leb d.license max) b.domains)

unfoldable pub kept_cidrs : ℕ → Builder → List CidrRule
unfolding is_kept select
kept_cidrs max b = select (λ c. is_kept max b c.app_id) (select (λ c. leb c.license max) b.cidrs)

unfoldable pub kept_payloads : ℕ → Builder → List PayloadRule
unfolding is_kept select
kept_payloads max b =
    select (λ q. is_kept max b q.app_id) (select (λ q. leb q.license max) b.payloads)

abbrev pub app_row : ℕ × Meta → ℕ → List Value
app_row (aid, m) off = num aid ∷ num off ∷ num m.category ∷ num m.license ∷ num 0 ∷ []

abbrev pub dom_row : DomainRule → ℕ → List Value
dom_row d off =
    num off ∷ num d.app_id ∷ num d.kind ∷ num d.confidence ∷ num d.tier ∷ num d.license ∷ []

abbrev pub cidr_row : CidrRule → List Value
cidr_row c =
    bytes c.raw
    ∷ num c.app_id
    ∷ num c.prefixlen
    ∷ num c.af
    ∷ num c.tier
    ∷ num c.confidence
    ∷ num c.license
    ∷ bytes (0 ∷ 0 ∷ 0 ∷ [])
    ∷ []

abbrev pub pay_row : PayloadRule → List Value
pay_row q =
    bytes q.value
    ∷ bytes q.mask
    ∷ num q.app_id
    ∷ num q.tier
    ∷ num q.confidence
    ∷ num q.license
    ∷ num 0
    ∷ []

-- The rows of a table whose first strings are interned.
unfoldable pub rows_at {ℓ} :
    {A : Type ℓ} → (A → ℕ → List Value) → List A → List ℕ → List (List Value)
rows_at row [] offs = []
rows_at row (x ∷ xs) [] = []
rows_at row (x ∷ xs) (o ∷ offs) = row x o ∷ rows_at row xs offs

-- The header and the five parts behind it.
unfoldable pub assemble :
    ℕ → ℕ → ℕ → ℕ → ℕ → List ℕ → List ℕ → List ℕ → List ℕ → List ℕ → Option (List ℕ)
unfolding pack
assemble napp ndom ncidr npay now app_blob dom_blob cidr_blob pay_blob pool =
    let app_off : ℕ = calcsize hdr_fmt in
    let dom_off : ℕ = app_off + length app_blob in
    let cidr_off : ℕ = dom_off + length dom_blob in
    let pay_off : ℕ = cidr_off + length cidr_blob in
    let pool_off : ℕ = pay_off + length pay_blob in
    elim (pack hdr_fmt (
      num magic
      ∷ num version
      ∷ num napp
      ∷ num ndom
      ∷ num (length pool)
      ∷ num app_off
      ∷ num dom_off
      ∷ num pool_off
      ∷ num now
      ∷ num ncidr
      ∷ num cidr_off
      ∷ num npay
      ∷ num pay_off
      ∷ [])) [
        | none ↦ none
        | some hdr ↦ some (hdr ++ (app_blob ++ (dom_blob ++ (cidr_blob ++ (pay_blob ++ pool)))))
      ]

-- `Builder.serialize`
unfoldable pub serialize : ℕ → ℕ → Builder → Option (List ℕ)
serialize max now b =
    let apps = kept_apps max b in
    let doms = kept_domains max b in
    let cids = kept_cidrs max b in
    let pays = kept_payloads max b in
    let (app_offs, p) = intern_all (map (λ a. a.1.name) apps) empty_pool in
    let (dom_offs, q) = intern_all (map (λ d. d.name) doms) p in
    elim (pack_rows app_fmt (rows_at app_row apps app_offs)) [
      | none ↦ none
      | some app_blob ↦ elim (pack_rows dom_fmt (rows_at dom_row doms dom_offs)) [
        | none ↦ none
        | some dom_blob ↦ elim (pack_rows cidr_fmt (map cidr_row cids)) [
          | none ↦ none
          | some cidr_blob ↦ elim (pack_rows pay_fmt (map pay_row pays)) [
            | none ↦ none
            | some pay_blob ↦
                assemble (length apps) (length doms) (length cids) (length pays) now app_blob
                  dom_blob cidr_blob pay_blob q.bytes
          ]
        ]
      ]
    ]
