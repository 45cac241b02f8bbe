-- ===== src/Measure/Netify.antt =====
-- `extract_netify` and `count_rules` of tools/measure_corpus.py.
use ngfw_policy.Prelude.{
  ℕ, ◌+◌, Bool, not, ◌||◌, List, [], ◌∷◌, Option, none, some, Text, codes, strip, lstrip, is_space,
  is_nil, starts_with, Dict, get, put, add, contains, select, length, take, if◌then◌else◌, list_eq,
  nat_eq, ◌==◌,
}
use ngfw_policy.Sigc.Load.Netify.{cut, is_prefix, remove_all, parts}
use ngfw_policy.Measure.Sets.{union}
use ngfw_policy.Measure.Normalize.{normalize}
use ngfw_policy.Measure.Sources.{Measured, key_set, amount, note}

-- `line.split(":", 1)[0]`
unfoldable pub kind_of : Text → Text
unfolding cut
kind_of line = elim (cut b':' line) [ none ↦ line | some (kind, _) ↦ kind ]

-- `counts.get(kind, 0)`
abbrev pub count_of : Text → Dict Text ℕ → ℕ
count_of kind counts = elim (get kind counts) [ none ↦ 0 | some n ↦ n ]

-- The names of the applications and the number of the lines of each kind.
unfoldable pub netify_entry : Text → List Text × Dict Text ℕ → List Text × Dict Text ℕ
unfolding kind_of get put add parts remove_all strip
netify_entry line (apps, counts) =
    let kind : Text = kind_of line in
    let counts' : Dict Text ℕ = put kind (count_of kind counts + 1) counts in
    let named : List Text = elim (parts line) [
      | none ↦ apps
      | some (_, _, rest) ↦ add (strip is_space (remove_all (codes "netify.") 0 rest)) apps
    ] in
    if kind == codes "app" then (named, counts') else (apps, counts')

abbrev is_skipped : Text → Bool
is_skipped line = starts_with b'#' line || is_nil (strip is_space line)

unfoldable pub netify_scan : List Text → List Text × Dict Text ℕ → List Text × Dict Text ℕ
unfolding netify_entry strip
netify_scan [] found = found
netify_scan (line ∷ lines) found =
    netify_scan lines (if is_skipped line then found else netify_entry line found)

-- `sum(v for k, v in counts.items() if k != "app")`
unfoldable pub sum_rules : Dict Text ℕ → ℕ
sum_rules [] = 0
sum_rules ((k, n) ∷ d) = (if not (k == codes "app") then n else 0) + sum_rules d

-- `extract_netify`
unfoldable pub extract_netify : Option (List Text) → Measured
unfolding netify_scan normalize union get sum_rules
extract_netify none = ([], (codes "error", note (codes "netify-apps.conf not found")) ∷ [])
extract_netify (some lines) =
    let (apps, counts) = netify_scan lines ([], []) in
    (
      key_set apps,
      (codes "apps", amount (length apps))
          ∷ (codes "rules_domain", amount (count_of (codes "dom") counts))
          ∷ (codes "rules_cidr", amount (count_of (codes "net") counts))
          ∷ (codes "rules_expr", amount (count_of (codes "nsd") counts))
          ∷ (codes "rules_total", amount (sum_rules counts))
          ∷ (codes "license", note (codes "Apache-2.0"))
          ∷ [],
    )

-- `sum(1 for ln in lines if ln.lstrip().startswith(p))`
unfoldable pub count_entries : Text → List Text → ℕ
unfolding is_prefix lstrip select
count_entries p lines = length (select (λ ln. is_prefix p (lstrip is_space ln)) lines)

unfoldable pub count_netify : List Text → ℕ
unfolding contains select
count_netify lines =
    length
      (select (λ ln. contains (take 4 ln) (codes "dom:" ∷ codes "net:" ∷ codes "nsd:" ∷ [])) lines)

unfoldable pub sum_files : List (List Text) → ℕ
unfolding count_entries
sum_files [] = 0
sum_files (lines ∷ files) = count_entries (codes "{") lines + sum_files files

abbrev row_if {ℓ} : {A : Type ℓ} → Text → (A → ℕ) → Option A → Dict Text ℕ → Dict Text ℕ
row_if k f none d = d
row_if k f (some a) d = (k, f a) ∷ d

unfoldable pub sum_values : Dict Text ℕ → ℕ
sum_values [] = 0
sum_values ((k, n) ∷ d) = n + sum_values d

-- `count_rules`, from the generated files, the content matches and netify-apps.conf, if vendored
unfoldable pub count_rules :
    Option (List (List Text)) → Option (List Text) → Option (List Text) → Dict Text ℕ × ℕ
unfolding sum_files count_entries count_netify sum_values
count_rules inc cm nf =
    let out : Dict Text ℕ = row_if (codes "ndpi_inc_generated_entries") sum_files inc (
      row_if (codes "ndpi_content_match_entries") (count_entries (codes "{ \"")) cm
        (row_if (codes "netify_rules") count_netify nf [])) in
    (out, sum_values out)
