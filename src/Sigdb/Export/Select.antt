-- ===== src/Sigdb/Export/Select.antt =====
-- The rows of an export are the rules that it may hold.
use mathlib.Core.Option.{some-injective}
use ngfw_policy.Prelude.{
  ℕ, ◌≡◌, refl, sym, ◌∙◌, ap, Bool, true, false, ◌&&◌, ◌||◌, ◌⊎◌, List, [], ◌∷◌, ◌++◌, Option, none,
  some, Text, codes, Dict, map, get, has, has-put, put, contains, eqb, leb, nat_eq, list_eq,
  Bool-cases, Option-cases, inl, inr, arith,
}
use ngfw_policy.Sigc.Builder.{DomainRule, CidrRule, PayloadRule}
use ngfw_policy.Sigdb.Read.{AppEntry, Corpus}
use ngfw_policy.Sigdb.Export.{
  ExportRow, license_names, tier_names, item, hex, apps_of, emit, passes, row_with, export_domain,
  export_cidr, export_payload, both, rows,
}

-- The rows are those of the elements with a test, one each and in their order.
abbrev pub Selected :
    {A : Type 0} → (A → ExportRow → Type 0) → (A → Bool) → List A → List ExportRow → Type 0
Selected Q p [] rs = rs ≡ []
Selected Q p (x ∷ xs) rs =
    ((p x ≡ false) × Selected Q p xs rs)
    ⊎ ((p x ≡ true)
        × (r : ExportRow) × (rest : List ExportRow) × (rs ≡ r ∷ rest)
        × Q x r
        × Selected Q p xs rest)

emit-Selected :
    {A : Type 0} (Q : A → ExportRow → Type 0) (p q : A → Bool) (row : A → Option ExportRow)
    (xs : List A)
    → ((x : A) → p x ≡ q x)
    → ((x : A) (r : ExportRow) → q x ≡ true → row x ≡ some r → Q x r)
    → (rs : List ExportRow) → emit p row xs ≡ some rs
    → Selected Q q xs rs
unfolding emit
emit-Selected Q p q row [] same f rs h = sym (some-injective _ _ h)
emit-Selected Q p q row (x ∷ xs) same f rs h = elim (Bool-cases (p x)) [
  | inr cut ↦ inl (sym (same x) ∙ cut, emit-Selected Q p q row xs same f rs (rw cut at h))
  | inl kept ↦ elim (Option-cases (row x)) [
    | inl raised ↦ absurd (cc (rw (kept, raised) at h))
    | inr (r, e) ↦ elim (Option-cases (emit p row xs)) [
      | inl raised ↦ absurd (cc (rw (kept, e, raised) at h))
      | inr (rest, es) ↦ inr (
        sym (same x) ∙ kept,
        r,
        rest,
        sym (some-injective _ _ (rw (kept, e, es) at h)),
        f x r (sym (same x) ∙ kept) e,
        emit-Selected Q p q row xs same f rest es,
      )
    ]
  ]
]

has-get :
    (aid : ℕ) (apps : Dict ℕ Text) → has aid apps ≡ true → (n : Text) × (get aid apps ≡ some n)
unfolding has get
has-get aid [] h = absurd (cc h)
has-get aid ((k, n) ∷ apps) h = elim (Bool-cases (eqb k aid)) [
  | inl hit ↦ (n, rw hit refl)
  | inr miss ↦ let (m, e) = has-get aid apps (rw miss at h) in (m, rw miss e)
]

apps_of-has :
    (aid : ℕ) (es : List AppEntry) (apps : Dict ℕ Text)
    → has aid (apps_of es apps) ≡ (contains aid (map (λ e. e.app_id) es) || has aid apps)
unfolding apps_of contains
apps_of-has aid [] apps = refl
apps_of-has aid (e ∷ es) apps =
    ground (arith, apps_of-has aid es (put e.app_id e.name apps), has-put e.app_id aid e.name apps)

both-some :
    (a b : Option (List ExportRow)) (rs : List ExportRow)
    → both a b ≡ some rs
    → (xs : List ExportRow) × (ys : List ExportRow) × (a ≡ some xs)
      × (b ≡ some ys)
      × (rs ≡ xs ++ ys)
both-some none b rs h = absurd (cc h)
both-some (some xs) none rs h = absurd (cc h)
both-some (some xs) (some ys) rs h = (xs, ys, refl, refl, sym (some-injective _ _ h))

module _ (show4 show6 : List ℕ → Text) (sources : Dict Text (List Text)) (max_lic : ℕ)
    (c : Corpus) where
  -- A rule may be exported if its license is at most the limit and its app is in the file.
  abbrev pub is_exported : ℕ → ℕ → Bool
  is_exported aid lic = leb lic max_lic && contains aid (map (λ (e : AppEntry). e.app_id) c.apps)

  -- A row has the names of a rule's license, tier and app, and its confidence.
  abbrev pub RowOf : ℕ → ℕ → ℕ → ℕ → ExportRow → Type 0
  RowOf aid tier confidence lic r =
      (item license_names lic ≡ some r.license)
      × (item tier_names tier ≡ some r.tier)
      × (get aid (apps_of c.apps []) ≡ some r.app)
      × (r.confidence ≡ confidence)

  abbrev pub DomainRow : DomainRule → ExportRow → Type 0
  DomainRow d r =
      RowOf d.app_id d.tier d.confidence d.license r
      × (r.rule_type ≡ codes "name")
      × (r.value ≡ d.name)

  abbrev pub CidrRow : CidrRule → ExportRow → Type 0
  CidrRow d r = RowOf d.app_id d.tier d.confidence d.license r × (r.rule_type ≡ codes "ip_prefix")

  abbrev pub PayloadRow : PayloadRule → ExportRow → Type 0
  PayloadRow d r =
      RowOf d.app_id d.tier d.confidence d.license r
      × (r.rule_type ≡ codes "payload")
      × (r.value ≡ hex d.value)

  abbrev apps : Dict ℕ Text
  apps = apps_of c.apps []

  passes-is_exported :
      (aid lic : ℕ) → passes show4 show6 sources apps max_lic aid lic ≡ is_exported aid lic
  unfolding passes has
  passes-is_exported aid lic = ground (arith, apps_of-has aid c.apps [])

  row_with-RowOf :
      (rule_type match_kind value detail : Text) (aid tier confidence lic : ℕ) (r : ExportRow)
      → is_exported aid lic ≡ true
      → row_with show4 show6 sources apps max_lic rule_type match_kind value detail aid tier
          confidence lic
        ≡ some r
      → RowOf aid tier confidence lic r × (r.rule_type ≡ rule_type) × (r.value ≡ value)
  unfolding row_with
  row_with-RowOf rule_type match_kind value detail aid tier confidence lic r pass h =
      let known : has aid apps ≡ true = ground (arith, pass, apps_of-has aid c.apps []) in
      let (n, named) = has-get aid apps known in
      elim (Option-cases (item tier_names tier)) [
        | inl raised ↦ absurd (cc (rw (raised, row_with) at h))
        | inr (t, et) ↦ elim (Option-cases (item license_names lic)) [
          | inl raised ↦ absurd (cc (rw (et, raised, row_with) at h))
          | inr (l, el) ↦
              let made = some-injective _ _ (rw (et, el, named, row_with) at h) in
              (
                (
                  el ∙ ap (λ (r : ExportRow). some r.license) made,
                  et ∙ ap (λ (r : ExportRow). some r.tier) made,
                  named ∙ ap (λ (r : ExportRow). some r.app) made,
                  sym (ap (λ (r : ExportRow). r.confidence) made),
                ),
                sym (ap (λ (r : ExportRow). r.rule_type) made),
                sym (ap (λ (r : ExportRow). r.value) made),
              )
        ]
      ]

  -- Where the export does not raise, its rows are those of the domains, then of the prefixes, then of
  -- the payloads of the file, each in their order: one row for each rule whose license is at most the
  -- limit and whose app is in the file, with the names of the rule's own license, tier and app, its
  -- confidence and kind and, of domains and payloads, its value; and none for the other rules.
  pub rows-IsSelection :
      (rs : List ExportRow)
      → rows show4 show6 sources max_lic c ≡ some rs
      → (ds : List ExportRow) × (cs : List ExportRow) × (ps : List ExportRow) × (rs
          ≡ ds ++ (cs ++ ps))
        × Selected DomainRow (λ d. is_exported d.app_id d.license) c.domains ds
        × Selected CidrRow (λ d. is_exported d.app_id d.license) c.cidrs cs
        × Selected PayloadRow (λ d. is_exported d.app_id d.license) c.payloads ps
  unfolding rows
  rows-IsSelection rs h =
      let (ds, more, ed, em, whole) = both-some _ _ rs h in
      let (cs, ps, ec, ep, joined) = both-some _ _ more em in
      (
        ds,
        cs,
        ps,
        whole ∙ ap (λ (l : List ExportRow). ds ++ l) joined,
        emit-Selected DomainRow _ _ _ c.domains (λ d. passes-is_exported d.app_id d.license)
            (λ d r pass e. unfold export_domain in row_with-RowOf _ _ _ _ _ _ _ _ r pass e) ds ed,
        emit-Selected CidrRow _ _ _ c.cidrs (λ d. passes-is_exported d.app_id d.license)
            (λ d r pass e.
              unfold export_cidr in (let f = row_with-RowOf _ _ _ _ _ _ _ _ r pass e in (f.0, f.1)))
            cs ec,
        emit-Selected PayloadRow _ _ _ c.payloads (λ d. passes-is_exported d.app_id d.license)
            (λ d r pass e. unfold export_payload in row_with-RowOf _ _ _ _ _ _ _ _ r pass e) ps ep,
      )
