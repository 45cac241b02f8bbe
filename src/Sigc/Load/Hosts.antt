-- ===== src/Sigc/Load/Hosts.antt =====
-- The loaders of host tables of tools/sigc.py: `load_ndpi_hosts` and `load_mmt_dpi`. A missing
-- tree, which they report as an error, is `none`; the matches of their regular expressions are
-- given for each file in order.
use ngfw_policy.Prelude.{
  ℕ, ◌+◌, refl, Bool, not, List, [], Option, none, some, Text, has_code, if◌then◌else◌, has, add,
  list_eq, nat_eq,
}
use ngfw_policy.Sigc.Slug.{slug}
use ngfw_policy.Sigc.Load.{Load, pure, ◌>>=◌, on_some, for_each, app, domain, count_if}
use ngfw_policy.Sigc.Load.Sound.{Runs, load_rules}

-- `slug not in b.apps`
unfoldable pub is_new : Text → Load Bool
unfolding has
is_new name b = some (not (has name b.apps), b)

pub record NdpiHosts : Type 0 where
  pub apps : ℕ
  pub doms : ℕ
  pub ip_rows : ℕ

-- One match of `_HOST_MATCH`: the host and the protocol constant.
ndpi_row : (Text → Bool) → NdpiHosts → Text × Text → Load NdpiHosts
ndpi_row is_address st (host, proto) =
    if is_address host
    then pure (record st { ip_rows = st.ip_rows + 1 })
    else if not (has_code b'.' host)
    then pure st
    else do
      new ← is_new (slug proto)
      aid ← app (slug proto) 1
      added ← domain host aid 1 75 1
      pure (record st { apps = count_if new st.apps; doms = count_if added st.doms })

-- `load_ndpi_hosts`; the test of `ipaddress.ip_address` is the argument `is_address`
pub load_ndpi_hosts : (Text → Bool) → Option (List (Text × Text)) → Load (Option NdpiHosts)
unfolding ndpi_row for_each
load_ndpi_hosts is_address found = on_some found (pure none) λ rows. do
  st ← for_each (ndpi_row is_address) (record { apps = 0; doms = 0; ip_rows = 0 }) rows
  pure (some st)

-- The applications and the rules that the MMT-DPI loader has counted.
pub record MmtHosts : Type 0 where
  pub apps : List Text
  pub rules : ℕ

mmt_row : MmtHosts → Text × Text → Load MmtHosts
mmt_row st (host, proto) = do
  aid ← app (slug proto) 0
  added ← domain host aid 1 70 0
  pure (record { apps = add (slug proto) st.apps; rules = count_if added st.rules })

-- `load_mmt_dpi`; a file that does not mention PROTO_ has no match
pub load_mmt_dpi : Option (List (List (Text × Text))) → Load (Option MmtHosts)
unfolding mmt_row for_each
load_mmt_dpi found = on_some found (pure none) λ files. do
  st ← for_each (for_each mmt_row) (record { apps = []; rules = 0 }) files
  pure (some st)

Runs-is_new : (name : Text) → Runs (is_new name)
unfolding is_new
Runs-is_new name = record { at = λ b h. (_, b, refl, h) }

ruleset loops = (load_rules, Runs-is_new)

Runs-ndpi_row :
    (is_address : Text → Bool) (st : NdpiHosts) (row : Text × Text)
    → Runs (ndpi_row is_address st row)
unfolding ndpi_row
Runs-ndpi_row is_address st (host, proto) = search loops depth 9

-- Whatever rows match, the loader returns, and leaves a sound builder.
pub Runs-load_ndpi_hosts :
    (is_address : Text → Bool) (found : Option (List (Text × Text)))
    → Runs (load_ndpi_hosts is_address found)
unfolding load_ndpi_hosts
Runs-load_ndpi_hosts is_address found = search (loops, Runs-ndpi_row)

Runs-mmt_row : (st : MmtHosts) (row : Text × Text) → Runs (mmt_row st row)
unfolding mmt_row
Runs-mmt_row st (host, proto) = search loops

pub Runs-load_mmt_dpi : (found : Option (List (List (Text × Text)))) → Runs (load_mmt_dpi found)
unfolding load_mmt_dpi
Runs-load_mmt_dpi found = search (loops, Runs-mmt_row)
