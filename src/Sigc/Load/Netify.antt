-- ===== src/Sigc/Load/Netify.antt =====
-- `load_netify` of tools/sigc.py: the lines of netify-apps.conf, `kind:native:rest`.
use ngfw_policy.Prelude.{
  ℕ, ◌+◌, Bool, true, false, ◌&&◌, ◌||◌, List, [], ◌∷◌, Option, none, some, Text, codes, strip,
  is_space, is_nil, starts_with, eqb, length, if◌then◌else◌, Dict, get, put, list_eq, nat_eq, ◌==◌,
}
use ngfw_policy.Sigc.Slug.{slug, unknown}
use ngfw_policy.Sigc.Rules.{Network}
use ngfw_policy.Sigc.Load.{Load, pure, ◌>>=◌, on_some, for_each, app, domain, cidr, count_if}
use ngfw_policy.Sigc.Load.Sound.{Runs, load_rules}

-- `s.split(c, 1)` where the separator occurs
unfoldable pub cut : ℕ → Text → Option (Text × Text)
cut c [] = none
cut c (x ∷ s) =
    let rest = cut c s in
    if eqb x c then some ([], s) else elim rest [ none ↦ none | some (l, r) ↦ some (x ∷ l, r) ]

-- `line.split(":", 2)`, none if there are fewer than three parts
unfoldable pub parts : Text → Option (Text × Text × Text)
unfolding cut
parts line = elim (cut b':' line) [
  | none ↦ none
  | some (kind, tail) ↦ elim (cut b':' tail) [
    | none ↦ none
    | some (native, rest) ↦ some (kind, native, rest)
  ]
]

unfoldable pub is_prefix : Text → Text → Bool
is_prefix [] s = true
is_prefix (c ∷ p) [] = false
is_prefix (c ∷ p) (x ∷ s) = eqb c x && is_prefix p s

-- `s.replace(pattern, "")`; the number is how many characters of an occurrence are still to skip
unfoldable pub remove_all : Text → ℕ → Text → Text
unfolding is_prefix
remove_all pattern skip [] = []
remove_all pattern (ℕ.suc skip) (c ∷ s) = remove_all pattern skip s
remove_all pattern ℕ.zero (c ∷ s) = elim (is_prefix pattern (c ∷ s)) [
  | true ↦ remove_all pattern (Prim.Native.Nat.pred (length pattern)) s
  | false ↦ c ∷ remove_all pattern 0 s
]

-- The local variables of the loop.
pub record Netify : Type 0 where
  pub by_native : Dict Text ℕ
  pub apps : ℕ
  pub doms : ℕ
  pub nets : ℕ
  pub skipped : ℕ

netify_app : Netify → Text → Text → Load Netify
netify_app st native rest =
    let name : Text = slug (strip is_space (remove_all (codes "netify.") 0 rest)) in
    if name == unknown then pure st else do
      aid ← app name 0
      pure (record st { by_native = put native aid st.by_native; apps = st.apps + 1 })

netify_dom : Netify → Text → Text → Load Netify
netify_dom st native rest =
    on_some (get native st.by_native) (pure (record st { skipped = st.skipped + 1 }))
      λ aid. do added ← domain rest aid 1 85 0; pure (record st { doms = count_if added st.doms })

netify_net : (Text → Option Network) → Netify → Text → Text → Load Netify
netify_net ip_network st native rest =
    on_some (get native st.by_native) (pure (record st { skipped = st.skipped + 1 })) λ aid. do
      added ← cidr ip_network rest aid 2 45 0
      pure (record st { nets = count_if added st.nets })

netify_rule : (Text → Option Network) → Netify → Text × Text × Text → Load Netify
unfolding netify_app netify_dom netify_net
netify_rule ip_network st (kind, native, rest) =
    if kind == codes "app"
    then netify_app st native rest
    else if kind == codes "dom"
    then netify_dom st native rest
    else if kind == codes "net"
    then netify_net ip_network st native rest
    else pure st

netify_line : (Text → Option Network) → Netify → Text → Load Netify
unfolding netify_rule parts
netify_line ip_network st line =
    if is_nil line || starts_with b'#' line
    then pure st
    else on_some (parts line) (pure st) (netify_rule ip_network st)

-- `load_netify`, from the lines of the file
pub load_netify : (Text → Option Network) → List Text → Load Netify
unfolding netify_line for_each
load_netify ip_network lines =
    for_each (netify_line ip_network)
      (record { by_native = []; apps = 0; doms = 0; nets = 0; skipped = 0 }) lines

Runs-netify_app : (st : Netify) (native rest : Text) → Runs (netify_app st native rest)
unfolding netify_app
Runs-netify_app st native rest = search load_rules

Runs-netify_dom : (st : Netify) (native rest : Text) → Runs (netify_dom st native rest)
unfolding netify_dom
Runs-netify_dom st native rest = search load_rules

Runs-netify_net :
    (ip_network : Text → Option Network) (st : Netify) (native rest : Text)
    → Runs (netify_net ip_network st native rest)
unfolding netify_net
Runs-netify_net ip_network st native rest = search load_rules

Runs-netify_rule :
    (ip_network : Text → Option Network) (st : Netify) (p : Text × Text × Text)
    → Runs (netify_rule ip_network st p)
unfolding netify_rule
Runs-netify_rule ip_network st (kind, native, rest) =
    search (load_rules, Runs-netify_app, Runs-netify_dom, Runs-netify_net)

Runs-netify_line :
    (ip_network : Text → Option Network) (st : Netify) (line : Text)
    → Runs (netify_line ip_network st line)
unfolding netify_line
Runs-netify_line ip_network st line = search (load_rules, Runs-netify_rule)

-- Whatever the lines are, the loader returns, and leaves a sound builder.
pub Runs-load_netify :
    (ip_network : Text → Option Network) (lines : List Text) → Runs (load_netify ip_network lines)
unfolding load_netify
Runs-load_netify ip_network lines = search (load_rules, Runs-netify_line)
