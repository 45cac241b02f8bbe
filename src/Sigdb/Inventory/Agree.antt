-- ===== src/Sigdb/Inventory/Agree.antt =====
-- The numbers of the inventory, against the rules that `serialize` of tools/sigc.py writes.
use ngfw_policy.Prelude.{
  ℕ, ◌+◌, ◌≡◌, refl, Bool, true, ◌||◌, List, [], ◌∷◌, ◌++◌, map, All, Text, Dict, put, get-put,
  Bool-cases, inl, inr, contains, length, length-append, select, leb, eqb, eqb_iff, if◌then◌else◌,
  nat_eq, arith, list_eq, if_cases,
}
use ngfw_policy.Sigc.Builder.{Builder, Meta, DomainRule, CidrRule, PayloadRule}
use ngfw_policy.Sigdb.Write.{
  insert_app, sort_apps, kept_apps, is_kept, kept_domains, kept_cidrs, kept_payloads,
}
use ngfw_policy.Sigdb.Inventory.{
  list_for, number_for, group_rules, count_cidrs, insert_by_length, sort_by_length, InventoryEntry,
  inventory_entry, inventory,
}

list_for-put :
    {A : Type 0} (i k : ℕ) (xs : List A) (d : Dict ℕ (List A))
    → list_for k (put i xs d) ≡ (if eqb i k then xs else list_for k d)
unfolding list_for
list_for-put i k xs d = ground (arith, get-put i k xs d, eqb_iff i k)

number_for-put :
    (i k n : ℕ) (d : Dict ℕ ℕ) → number_for k (put i n d) ≡ (if eqb i k then n else number_for k d)
unfolding number_for
number_for-put i k n d = ground (arith, get-put i k n d, eqb_iff i k)

-- The rules of an app.
abbrev pub rules_of : {R : Type 0} → (R → ℕ) → ℕ → List R → List R
rules_of app_of aid rs = select (λ r. eqb (app_of r) aid) rs

length-group_rules :
    {R A : Type 0} (maxl aid : ℕ) (license_of app_of : R → ℕ) (shown : R → A) (rs : List R)
    (d : Dict ℕ (List A))
    → length (list_for aid (group_rules maxl license_of app_of shown rs d))
      ≡ length (list_for aid d)
        + length (rules_of app_of aid (select (λ r. leb (license_of r) maxl) rs))
unfolding group_rules select
length-group_rules maxl aid license_of app_of shown [] d = omega arith
length-group_rules maxl aid license_of app_of shown (r ∷ rs) d =
    let i = app_of r in
    let old = list_for i d in
    let kept =
      length-group_rules maxl aid license_of app_of shown rs (put i (old ++ shown r ∷ []) d) in
    let skipped = length-group_rules maxl aid license_of app_of shown rs d in
    ground (
      arith,
      kept,
      skipped,
      list_for-put i aid (old ++ shown r ∷ []) d,
      length-append old (shown r ∷ []),
      eqb_iff i aid,
    )

number_for-count_cidrs :
    (maxl aid : ℕ) (rs : List CidrRule) (d : Dict ℕ ℕ)
    → number_for aid (count_cidrs maxl rs d)
      ≡ number_for aid d
        + length (rules_of (λ (r : CidrRule). r.app_id) aid (select (λ r. leb r.license maxl) rs))
unfolding count_cidrs select
number_for-count_cidrs maxl aid [] d = omega arith
number_for-count_cidrs maxl aid (r ∷ rs) d =
    let n = number_for r.app_id d + 1 in
    let kept = number_for-count_cidrs maxl aid rs (put r.app_id n d) in
    let skipped = number_for-count_cidrs maxl aid rs d in
    ground (arith, kept, skipped, number_for-put r.app_id aid n d, eqb_iff r.app_id aid)

length-insert_by_length :
    (t : Text) (ts : List Text) → length (insert_by_length t ts) ≡ 1 + length ts
unfolding insert_by_length
length-insert_by_length t [] = ground arith
length-insert_by_length t (u ∷ us) = ground (arith, length-insert_by_length t us)

length-sort_by_length : (ts : List Text) → length (sort_by_length ts) ≡ length ts
unfolding sort_by_length
length-sort_by_length [] = refl
length-sort_by_length (t ∷ ts) =
    omega (arith, length-insert_by_length t (sort_by_length ts), length-sort_by_length ts)

-- A filter on apps leaves the rules of an app that it keeps.
rules_of-select :
    {R : Type 0} (app_of : R → ℕ) (aid : ℕ) (keep : ℕ → Bool) (rs : List R)
    → keep aid ≡ true
    → rules_of app_of aid (select (λ r. keep (app_of r)) rs) ≡ rules_of app_of aid rs
unfolding select
rules_of-select app_of aid keep [] h = refl
rules_of-select app_of aid keep (r ∷ rs) h =
    ground (arith, h, rules_of-select app_of aid keep rs h, eqb_iff (app_of r) aid)

-- The ids of apps.
abbrev ids : List (ℕ × Meta) → List ℕ
ids apps = map (λ a. a.0) apps

contains-insert_app :
    (k : ℕ) (a : ℕ × Meta) (apps : List (ℕ × Meta))
    → contains k (ids (insert_app a apps)) ≡ (eqb a.0 k || contains k (ids apps))
unfolding insert_app contains
contains-insert_app k a [] = refl
contains-insert_app k a (x ∷ xs) = ground (arith, contains-insert_app k a xs)

contains-sort_apps :
    (k : ℕ) (apps : List (ℕ × Meta)) → contains k (ids (sort_apps apps)) ≡ contains k (ids apps)
unfolding sort_apps contains
contains-sort_apps k [] = refl
contains-sort_apps k (x ∷ xs) =
    rw (contains-insert_app k x (sort_apps xs), contains-sort_apps k xs) refl

select-ids :
    (p : ℕ × Meta → Bool) (zs : List ℕ) (apps : List (ℕ × Meta))
    → ((k : ℕ) → contains k (ids (select p apps)) ≡ true → contains k zs ≡ true)
    → All (λ a. p a ≡ true → contains a.0 zs ≡ true) apps
unfolding select contains
select-ids p zs [] h = tt
select-ids p zs (x ∷ xs) h = (
  λ e. h x.0 (ground (arith, e, eqb_iff x.0 x.0)),
  select-ids p zs xs (λ k e. h k (ground (arith, e))),
)

module _ (P : ℕ × Meta → Type 0) where
  insert_app-All :
      (a : ℕ × Meta) (apps : List (ℕ × Meta)) → P a → All P apps → All P (insert_app a apps)
  unfolding insert_app
  insert_app-All a [] h hs = (h, tt)
  insert_app-All a (x ∷ xs) h hs =
      if_cases (All P) (leb a.0 x.0) _ _ (λ first. (h, hs))
        (λ later. (hs.0, insert_app-All a xs h hs.1))

  sort_apps-All : (apps : List (ℕ × Meta)) → All P apps → All P (sort_apps apps)
  unfolding sort_apps
  sort_apps-All [] hs = tt
  sort_apps-All (x ∷ xs) hs = insert_app-All x (sort_apps xs) hs.0 (sort_apps-All xs hs.1)

  select-All :
      (p : ℕ × Meta → Bool) (apps : List (ℕ × Meta))
      → All (λ a. p a ≡ true → P a) apps
      → All P (select p apps)
  unfolding select
  select-All p [] hs = tt
  select-All p (x ∷ xs) hs = elim (Bool-cases (p x)) [
    | inl kept ↦ rw kept (hs.0 kept, select-All p xs hs.1)
    | inr cut ↦ rw cut (select-All p xs hs.1)
  ]

  map-All :
      {B : Type 0} (Q : B → Type 0) (f : ℕ × Meta → B) (apps : List (ℕ × Meta))
      → ((a : ℕ × Meta) → P a → Q (f a))
      → All P apps
      → All Q (map f apps)
  map-All Q f [] h hs = tt
  map-All Q f (x ∷ xs) h hs = (h x hs.0, map-All Q f xs h hs.1)

-- The numbers of an entry are those of the rules that a build of the tier writes for the app.
pub record Agrees (maxl : ℕ) (b : Builder) (e : InventoryEntry) : Type 0 where
  pub domains :
      e.domains ≡ length (rules_of (λ (r : DomainRule). r.app_id) e.id (kept_domains maxl b))
  pub cidrs : e.cidrs ≡ length (rules_of (λ (r : CidrRule). r.app_id) e.id (kept_cidrs maxl b))
  pub payloads :
      e.payloads ≡ length (rules_of (λ (r : PayloadRule). r.app_id) e.id (kept_payloads maxl b))

-- Whatever a build has read, each entry of its inventory counts the domains, prefixes and payloads
-- that the file of the same license tier holds for that app.
pub inventory-Agrees : (maxl : ℕ) (b : Builder) → All (Agrees maxl b) (inventory maxl b)
unfolding inventory is_kept kept_apps kept_domains kept_cidrs kept_payloads inventory_entry list_for
    number_for
inventory-Agrees maxl b =
    let keep = is_kept maxl b in
    let p : ℕ × Meta → Bool = λ a. leb a.1.license maxl in
    let found : All (λ (a : ℕ × Meta). keep a.0 ≡ true) (select p (sort_apps b.app_meta)) =
      select-All _ p (sort_apps b.app_meta) (
        sort_apps-All _ b.app_meta (
          select-ids p (ids (kept_apps maxl b)) b.app_meta
            (λ k e. rw (contains-sort_apps k (select p b.app_meta)) e))) in
    map-All (λ (a : ℕ × Meta). keep a.0 ≡ true) (Agrees maxl b) _ _
      (λ a kept. record {
        domains =
            let all =
              length-group_rules maxl a.0 (λ (r : DomainRule). r.license) (λ r. r.app_id)
                (λ r. r.name) b.domains [] in
            let same =
              rules_of-select (λ (r : DomainRule). r.app_id) a.0 keep
                (select (λ r. leb r.license maxl) b.domains) kept in
            let sorted = length-sort_by_length (
              list_for a.0 (
                group_rules maxl (λ (r : DomainRule). r.license) (λ r. r.app_id) (λ r. r.name)
                  b.domains [])) in
            rw same (omega (arith, sorted, all));
        cidrs =
            let all = number_for-count_cidrs maxl a.0 b.cidrs [] in
            let same =
              rules_of-select (λ (r : CidrRule). r.app_id) a.0 keep
                (select (λ r. leb r.license maxl) b.cidrs) kept in
            rw same (omega (arith, all));
        payloads =
            let all =
              length-group_rules maxl a.0 (λ (r : PayloadRule). r.license) (λ r. r.app_id)
                (λ r. r.value) b.payloads [] in
            let same =
              rules_of-select (λ (r : PayloadRule). r.app_id) a.0 keep
                (select (λ r. leb r.license maxl) b.payloads) kept in
            rw same (omega (arith, all));
      })
      found
