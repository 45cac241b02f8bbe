-- ===== src/Sigdb/Inventory.antt =====
-- The inventory of `main` of tools/sigc.py (`--emit-json`). The rules of an app are grouped for all
-- apps at once; bytes stand for their hexadecimal text, and sets are not sorted.
pub mod Agree
mod Tests
use ngfw_policy.Prelude.{
  ℕ, ◌+◌, Bool, true, false, List, [], ◌∷◌, ◌++◌, map, Option, none, some, Text, Dict, get, put,
  take, length, select, leb, if◌then◌else◌, nat_eq,
}
use ngfw_policy.Sigc.Builder.{Builder, Meta, DomainRule, CidrRule, PayloadRule}
use ngfw_policy.Sigdb.Write.{sort_apps}

-- `d.get(aid, [])`
unfoldable pub list_for {ℓ} : {A : Type ℓ} → ℕ → Dict ℕ (List A) → List A
unfolding get
list_for aid d = elim (get aid d) [ none ↦ [] | some xs ↦ xs ]

-- `d.get(aid, 0)`
unfoldable pub number_for : ℕ → Dict ℕ ℕ → ℕ
unfolding get
number_for aid d = elim (get aid d) [ none ↦ 0 | some n ↦ n ]

-- `d.setdefault(aid, []).append(...)` for the rules up to a license
unfoldable pub group_rules {ℓ} :
    {R : Type 0} {A : Type ℓ}
    → ℕ
    → (R → ℕ)
    → (R → ℕ)
    → (R → A)
    → List R
    → Dict ℕ (List A)
    → Dict ℕ (List A)
unfolding put list_for
group_rules maxl license_of app_of shown [] d = d
group_rules maxl license_of app_of shown (r ∷ rs) d = group_rules maxl license_of app_of shown rs (
    if leb (license_of r) maxl then put (app_of r) (list_for (app_of r) d ++ shown r ∷ []) d else d)

-- `cidr_n`
unfoldable pub count_cidrs : ℕ → List CidrRule → Dict ℕ ℕ → Dict ℕ ℕ
unfolding put number_for
count_cidrs maxl [] d = d
count_cidrs maxl (r ∷ rs) d =
    count_cidrs maxl rs
      (if leb r.license maxl then put r.app_id (number_for r.app_id d + 1) d else d)

-- `sorted(..., key=len)`
unfoldable pub insert_by_length : Text → List Text → List Text
insert_by_length t [] = t ∷ []
insert_by_length t (u ∷ us) =
    if leb (length t) (length u) then t ∷ u ∷ us else u ∷ insert_by_length t us

unfoldable pub sort_by_length : List Text → List Text
unfolding insert_by_length
sort_by_length [] = []
sort_by_length (t ∷ ts) = insert_by_length t (sort_by_length ts)

-- An entry of the inventory.
pub record InventoryEntry : Type 0 where
  pub id : ℕ
  pub name : Text
  pub license : ℕ
  pub sources : List Text
  pub domains : ℕ
  pub cidrs : ℕ
  pub payloads : ℕ
  pub sample_domains : List Text
  pub sample_payloads : List (List ℕ)

unfoldable pub inventory_entry :
    Dict ℕ (List Text) → Dict ℕ ℕ → Dict ℕ (List (List ℕ)) → Builder → ℕ × Meta → InventoryEntry
unfolding list_for number_for sort_by_length
inventory_entry doms cidr_n pays b (aid, m) =
    let dl : List Text = sort_by_length (list_for aid doms) in
    record {
      id = aid;
      name = m.name;
      license = m.license;
      sources = list_for aid b.app_sources;
      domains = length dl;
      cidrs = number_for aid cidr_n;
      payloads = length (list_for aid pays);
      sample_domains = take 10 dl;
      sample_payloads = take 4 (list_for aid pays);
    }

unfoldable pub inventory : ℕ → Builder → List InventoryEntry
unfolding group_rules count_cidrs inventory_entry select sort_apps
inventory maxl b =
    let doms : Dict ℕ (List Text) =
      group_rules maxl (λ (r : DomainRule). r.license) (λ r. r.app_id) (λ r. r.name) b.domains [] in
    let cidr_n : Dict ℕ ℕ = count_cidrs maxl b.cidrs [] in
    let pays : Dict ℕ (List (List ℕ)) =
      group_rules maxl (λ (r : PayloadRule). r.license) (λ r. r.app_id) (λ r. r.value) b.payloads
        [] in
    map (inventory_entry doms cidr_n pays b)
      (select (λ a. leb a.1.license maxl) (sort_apps b.app_meta))
