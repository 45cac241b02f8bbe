-- ===== src/Sigdb/Audit.antt =====
-- tools/dup_audit.py on the tables that its `load` reads. The files of the curation are given as
-- their decoded dicts, and the sorting and cutting of the printed lists is left out.
pub mod Verdict
mod Tests
use ngfw_policy.Prelude.{
  ℕ, Bool, true, false, not, ◌&&◌, ◌||◌, List, [], ◌∷◌, map, Option, none, some, Text, codes, lower,
  lower_code, Dict, get, put, add, contains, select, length, is_nil, starts_with, ltb, leb,
  if◌then◌else◌, nat_eq, list_eq,
}
use ngfw_policy.Sigc.Slug.{is_alnum}
use ngfw_policy.Sigc.Builder.{DomainRule}
use ngfw_policy.Sigdb.Read.{AppEntry, Corpus}

-- `d[k].add(v)` of a `defaultdict(set)`
unfoldable pub add_to : Text → Text → Dict Text (List Text) → Dict Text (List Text)
unfolding get put add
add_to k v d = put k (add v (elim (get k d) [ none ↦ [] | some vs ↦ vs ])) d

-- `names` of `load`
unfoldable pub names_of : List AppEntry → Dict ℕ Text → Dict ℕ Text
unfolding put
names_of [] d = d
names_of (a ∷ apps) d = names_of apps (put a.app_id a.name d)

-- `doms` of `load`
unfoldable pub owners_of :
    Dict ℕ Text → List DomainRule → Dict Text (List Text) → Dict Text (List Text)
unfolding add_to get
owners_of names [] d = d
owners_of names (r ∷ rs) d =
    owners_of names rs
      (add_to r.name (elim (get r.app_id names) [ none ↦ codes "?" | some n ↦ n ]) d)

-- `names.values()`
abbrev pub values {ℓ κ} : {K : Type ℓ} {V : Type κ} → Dict K V → List V
values = map (λ e. e.1)

-- `re.sub(r"[^a-z0-9]", "", n.lower())`
unfoldable pub name_key : Text → Text
unfolding select is_alnum lower_code
name_key n = select is_alnum (lower n)

unfoldable pub group_names : List Text → Dict Text (List Text) → Dict Text (List Text)
unfolding add_to name_key
group_names [] d = d
group_names (n ∷ ns) d = group_names ns (add_to (name_key n) n d)

-- The entries with at least two members: near-duplicate names, and suffixes of several apps.
unfoldable pub shared : Dict Text (List Text) → Dict Text (List Text)
unfolding select
shared d = select (λ e. ltb 1 (length e.1)) d

unfoldable pub near_groups : Dict ℕ Text → Dict Text (List Text)
unfolding group_names shared
near_groups names = shared (group_names (values names) [])

-- `[d for d in doms if len(d) <= BROAD_LEN]`
unfoldable pub broad_of : Dict Text (List Text) → List Text
unfolding select
broad_of doms = select (λ d. leb (length d) 6) (map (λ e. e.0) doms)

-- The keys of a curation file that are no comments.
unfoldable pub entries_of : List Text → List Text
unfolding select
entries_of keys = select (λ k. not (starts_with b'_' k)) keys

-- The curated keys that are still names.
unfoldable pub present_in : Dict ℕ Text → List Text → List Text
unfolding select contains
present_in names keys = select (λ k. contains k (values names)) keys

-- What `main` reports, and its exit status.
pub record Audit : Type 0 where
  pub near : Dict Text (List Text)
  pub multi : Dict Text (List Text)
  pub broad : List Text
  pub leaked : List Text
  pub stale : List Text
  pub bad : Bool

unfoldable pub audit : Corpus → List Text → List Text → Bool → Audit
unfolding names_of owners_of near_groups shared broad_of entries_of present_in
audit c aliases drops strict =
    let names : Dict ℕ Text = names_of c.apps [] in
    let doms : Dict Text (List Text) = owners_of names c.domains [] in
    let near : Dict Text (List Text) = near_groups names in
    let leaked : List Text = present_in names (entries_of drops) in
    let stale : List Text = present_in names (entries_of aliases) in
    record {
      near = near;
      multi = shared doms;
      broad = broad_of doms;
      leaked = leaked;
      stale = stale;
      bad = (not (is_nil leaked) || not (is_nil stale)) || (strict && not (is_nil near));
    }
