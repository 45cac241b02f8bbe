-- ===== src/Sigdb/Page.antt =====
-- `read_corpus` of tools/build_page.py behind its reading of the file. The sources by name, from the
-- inventory, are given; a rule stands for the row that shows it, and rows are not sorted.
pub mod Complete
mod Tests
use ngfw_policy.Prelude.{
  ℕ, ◌+◌, min, Bool, true, false, not, ◌&&◌, List, [], ◌∷◌, ◌++◌, map, Option, none, some, Text,
  Dict, get, put, length, select, is_nil, Eq, eqb, ltb, if◌then◌else◌, nat_eq, list_eq,
}
use ngfw_policy.Sigc.Builder.{DomainRule, CidrRule, PayloadRule}
use ngfw_policy.Sigdb.Read.{AppEntry, Corpus}

-- An app with its rules, its best tier (9 for none) and its best confidence.
pub record PageApp : Type 0 where
  pub name : Text
  pub license : ℕ
  pub domains : List DomainRule
  pub cidrs : List CidrRule
  pub payloads : List PayloadRule
  pub tier : ℕ
  pub confidence : ℕ

abbrev pub new_page_app : AppEntry → PageApp
new_page_app e = record {
  name = e.name;
  license = e.license;
  domains = [];
  cidrs = [];
  payloads = [];
  tier = 9;
  confidence = 0;
}

-- The loop over the apps.
unfoldable pub page_apps : List AppEntry → Dict ℕ PageApp → Dict ℕ PageApp
unfolding put
page_apps [] meta = meta
page_apps (e ∷ es) meta = page_apps es (put e.app_id (new_page_app e) meta)

-- `bump`
abbrev pub bump : ℕ → ℕ → PageApp → PageApp
bump tier conf a = record a {
  tier = min a.tier tier;
  confidence = if ltb a.confidence conf then conf else a.confidence;
}

abbrev pub show_domain : DomainRule → PageApp → PageApp
show_domain r a = bump r.tier r.confidence (record a { domains = a.domains ++ r ∷ [] })

abbrev pub show_cidr : CidrRule → PageApp → PageApp
show_cidr r a = bump r.tier r.confidence (record a { cidrs = a.cidrs ++ r ∷ [] })

abbrev pub show_payload : PayloadRule → PageApp → PageApp
show_payload r a = bump r.tier r.confidence (record a { payloads = a.payloads ++ r ∷ [] })

-- `a = meta.get(aid)`, changed in place if there is one
unfoldable pub change_app : ℕ → (PageApp → PageApp) → Dict ℕ PageApp → Dict ℕ PageApp
change_app aid f [] = []
change_app aid f ((i, a) ∷ meta) =
    let others = change_app aid f meta in if eqb i aid then (i, f a) ∷ meta else (i, a) ∷ others

-- A loop over one kind of rule.
unfoldable pub show_rules :
    {R : Type 0} → (R → ℕ) → (R → PageApp → PageApp) → List R → Dict ℕ PageApp → Dict ℕ PageApp
unfolding change_app
show_rules app_of show [] meta = meta
show_rules app_of show (r ∷ rs) meta =
    show_rules app_of show rs (change_app (app_of r) (show r) meta)

-- `meta` behind the loops
unfoldable pub page_meta : Corpus → Dict ℕ PageApp
unfolding page_apps show_rules
page_meta c =
    show_rules (λ (r : PayloadRule). r.app_id) show_payload c.payloads
      (show_rules (λ (r : CidrRule). r.app_id) show_cidr c.cidrs
        (show_rules (λ (r : DomainRule). r.app_id) show_domain c.domains (page_apps c.apps [])))

-- `collections.Counter`
unfoldable pub count_values : {K : Type 0} ⦃e : Eq K⦄ → List K → Dict K ℕ → Dict K ℕ
unfolding get put
count_values [] d = d
count_values (k ∷ ks) d = count_values ks (put k (elim (get k d) [ none ↦ 1 | some n ↦ n + 1 ]) d)

-- An app of the page: its sources, and no tier where it has no rule.
pub record ShownApp : Type 0 where
  pub app : PageApp
  pub sources : List Text
  pub best_tier : Option ℕ

unfoldable pub shown_app : Dict Text (List Text) → PageApp → ShownApp
unfolding get
shown_app inventory a = record {
  app = a;
  sources = elim (get a.name inventory) [ none ↦ [] | some ss ↦ ss ];
  best_tier = if ltb a.tier 9 then some a.tier else none;
}

abbrev pub has_no_rules : ShownApp → Bool
has_no_rules a = is_nil a.app.domains && is_nil a.app.cidrs && is_nil a.app.payloads

pub record Totals : Type 0 where
  pub apps : ℕ
  pub domains : ℕ
  pub cidrs : ℕ
  pub payloads : ℕ
  pub by_source : Dict Text ℕ
  pub by_license : Dict ℕ ℕ
  pub multi_source : ℕ
  pub no_rules : ℕ

join_all : {A : Type 0} → List (List A) → List A
join_all [] = []
join_all (xs ∷ xss) = xs ++ join_all xss

-- What `read_corpus` gives.
unfoldable pub page_of : Corpus → Dict Text (List Text) → List ShownApp × Totals
unfolding page_meta count_values shown_app select join_all
page_of c inventory =
    let shown : List ShownApp = map (λ e. shown_app inventory (e.1)) (page_meta c) in
    (
      shown,
      record {
        apps = length shown;
        domains = length c.domains;
        cidrs = length c.cidrs;
        payloads = length c.payloads;
        by_source = count_values (join_all (map (λ (a : ShownApp). a.sources) shown)) [];
        by_license = count_values (map (λ (a : ShownApp). a.app.license) shown) [];
        multi_source = length (select (λ (a : ShownApp). ltb 1 (length a.sources)) shown);
        no_rules = length (select has_no_rules shown);
      },
    )
