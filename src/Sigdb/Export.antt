-- ===== src/Sigdb/Export.antt =====
-- `rows` of tools/export_rules.py, on the tables that its `load` reads. The printing of addresses is
-- that of `ipaddress`, an argument; `none` is an index that is out of range.
pub mod Select
mod Tests
use ngfw_policy.Prelude.{
  ℕ, zero, suc, ◌+◌, ◌-◌, ◌/◌, ◌%◌, Bool, true, false, not, ◌&&◌, List, [], ◌∷◌, ◌++◌, map, Option,
  none, some, Text, codes, Dict, get, has, put, take, length, select, eqb, ltb, leb, if◌then◌else◌,
  nat_eq, list_eq,
}
use ngfw_policy.Sigc.Builder.{DomainRule, CidrRule, PayloadRule}
use ngfw_policy.Sigdb.Read.{AppEntry, Corpus}

-- One row of the export.
pub record ExportRow : Type 0 where
  pub app : Text
  pub rule_type : Text
  pub match_kind : Text
  pub value : Text
  pub detail : Text
  pub tier : Text
  pub confidence : ℕ
  pub license : Text
  pub sources : Text

-- `LICN`, `LIC_MAX` and `TIER`
abbrev pub license_names : List Text
license_names = codes "permissive" ∷ codes "LGPL-3.0" ∷ codes "GPL-2.0" ∷ []

abbrev pub tier_names : List Text
tier_names = codes "A" ∷ codes "B" ∷ codes "C" ∷ codes "D" ∷ []

-- `names[i]`
unfoldable pub item : List Text → ℕ → Option Text
item [] i = none
item (x ∷ xs) zero = some x
item (x ∷ xs) (suc i) = item xs i

-- A number in decimal digits; the number of its digits is at most itself plus one.
unfoldable pub digits : ℕ → ℕ → Text → Text
digits zero n acc = acc
digits (suc fuel) n acc =
    let acc' : Text = (b'0' + n % 10) ∷ acc in
    let rest = digits fuel (n / 10) acc' in if ltb n 10 then acc' else rest

unfoldable pub decimal : ℕ → Text
unfolding digits
decimal n = digits (n + 1) n []

abbrev hex_code : ℕ → ℕ
hex_code d = if ltb d 10 then b'0' + d else b'a' + (d - 10)

-- `b.hex()`
unfoldable pub hex : List ℕ → Text
hex [] = []
hex (b ∷ bs) = hex_code (b / 16) ∷ hex_code (b % 16) ∷ hex bs

-- `";".join(names)`
unfoldable pub join_semicolon : List Text → Text
join_semicolon [] = []
join_semicolon (s ∷ []) = s
join_semicolon (s ∷ t ∷ ss) = s ++ (b';' ∷ join_semicolon (t ∷ ss))

-- `"".join(chr(c) if 32 <= c < 127 else "." for c in val)`
unfoldable pub gloss : List ℕ → Text
gloss = map (λ c. if leb 32 c && ltb c 127 then c else b'.')

-- A mask with a zero byte is shown.
unfoldable pub mask_note : List ℕ → Text
unfolding hex select
mask_note msk = if ltb 0 (length (select (λ m. eqb m 0) msk)) then codes " mask=" ++ hex msk else []

-- The dict of apps of `load`.
unfoldable pub apps_of : List AppEntry → Dict ℕ Text → Dict ℕ Text
unfolding put
apps_of [] d = d
apps_of (a ∷ apps) d = apps_of apps (put a.app_id a.name d)

-- A loop of `rows`: the rules that pass, each with its row.
unfoldable pub emit {ℓ} :
    {A : Type ℓ} → (A → Bool) → (A → Option ExportRow) → List A → Option (List ExportRow)
emit p row [] = some []
emit p row (x ∷ xs) =
    let rest = emit p row xs in
    let here : Option (List ExportRow) = elim (row x) [
      | none ↦ none
      | some r ↦ elim rest [ none ↦ none | some rs ↦ some (r ∷ rs) ]
    ] in
    if p x then here else rest

module _ (show4 show6 : List ℕ → Text) (sources : Dict Text (List Text)) (apps : Dict ℕ Text)
    (max_lic : ℕ) where
  -- `not (lic > max_lic or aid not in apps)`
  unfoldable pub passes : ℕ → ℕ → Bool
  unfolding has
  passes aid lic = not (ltb max_lic lic) && has aid apps

  -- The columns that all rows share.
  unfoldable pub row_with : Text → Text → Text → Text → ℕ → ℕ → ℕ → ℕ → Option ExportRow
  unfolding item get join_semicolon
  row_with rule_type match_kind value detail aid tier confidence lic =
      let name : Text = elim (get aid apps) [ none ↦ [] | some n ↦ n ] in
      elim (item tier_names tier) [
        | none ↦ none
        | some t ↦ elim (item license_names lic) [
          | none ↦ none
          | some l ↦ some (record {
            app = name;
            rule_type = rule_type;
            match_kind = match_kind;
            value = value;
            detail = detail;
            tier = t;
            confidence = confidence;
            license = l;
            sources = join_semicolon (elim (get name sources) [ none ↦ [] | some ss ↦ ss ]);
          })
        ]
      ]

  unfoldable pub export_domain : DomainRule → Option ExportRow
  unfolding row_with
  export_domain d =
      row_with (codes "name") (if eqb d.kind 0 then codes "suffix" else codes "exact") d.name []
        d.app_id d.tier d.confidence d.license

  unfoldable pub export_cidr : CidrRule → Option ExportRow
  unfolding row_with decimal
  export_cidr c =
      let ip : Text = if eqb c.af 6 then show6 c.raw else show4 (take 4 c.raw) in
      row_with (codes "ip_prefix") (codes "ipv" ++ decimal c.af)
        (ip ++ (b'/' ∷ decimal c.prefixlen)) [] c.app_id c.tier c.confidence c.license

  unfoldable pub export_payload : PayloadRule → Option ExportRow
  unfolding row_with hex gloss mask_note
  export_payload p =
      row_with (codes "payload") (codes "prefix4") (hex p.value)
        (b'"' ∷ (gloss p.value ++ (b'"' ∷ mask_note p.mask))) p.app_id p.tier p.confidence p.license

-- Two loops one behind the other.
abbrev pub both : Option (List ExportRow) → Option (List ExportRow) → Option (List ExportRow)
both none rs = none
both (some rs) none = none
both (some rs) (some ss) = some (rs ++ ss)

-- `rows`
unfoldable pub rows :
    (List ℕ → Text) → (List ℕ → Text) → Dict Text (List Text) → ℕ → Corpus → Option (List ExportRow)
unfolding emit passes export_domain export_cidr export_payload apps_of
rows show4 show6 sources max_lic c =
    let apps : Dict ℕ Text = apps_of c.apps [] in
    both
      (emit (λ (d : DomainRule). passes show4 show6 sources apps max_lic d.app_id d.license)
        (export_domain show4 show6 sources apps max_lic) c.domains)
      (both
        (emit (λ (r : CidrRule). passes show4 show6 sources apps max_lic r.app_id r.license)
          (export_cidr show4 show6 sources apps max_lic) c.cidrs)
        (emit (λ (r : PayloadRule). passes show4 show6 sources apps max_lic r.app_id r.license)
          (export_payload show4 show6 sources apps max_lic) c.payloads))

-- `d[k] = d.get(k, 0) + 1` over the rows
unfoldable pub count_by : (ExportRow → Text) → List ExportRow → Dict Text ℕ → Dict Text ℕ
unfolding get put
count_by key [] d = d
count_by key (r ∷ rs) d =
    count_by key rs (put (key r) ((elim (get (key r) d) [ none ↦ 0 | some n ↦ n ]) + 1) d)
