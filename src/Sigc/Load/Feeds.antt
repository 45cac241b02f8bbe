-- ===== src/Sigc/Load/Feeds.antt =====
-- `load_cloud_feeds` of tools/sigc.py: address ranges that operators publish. The files are read
-- and decoded as JSON outside of the model; a missing file is `none`, and an entry has the fields
-- that its feed documents.
use ngfw_policy.Prelude.{
  ℕ, ◌+◌, not, ◌&&◌, ◌||◌, List, [], ◌∷◌, ◌++◌, ◌≢◌, refl, All, Option, none, some, Text, Dict, get,
  put, codes, map, has_code, starts_with, strip, is_space, is_nil, lower, eqb, if◌then◌else◌, ◌==◌,
  list_eq, nat_eq,
}
use ngfw_policy.Sigc.Rules.{Network}
use ngfw_policy.Sigc.Load.{Load, pure, raise, ◌>>=◌, on_some, for_each, app, cidr}
use ngfw_policy.Sigc.Load.Sound.{Runs, Runs-bind, Runs-for_each, load_rules}

-- The feeds. A service or a prefix that is absent is `none`; an item of a list of GitHub that is
-- no text, and a key whose value is no list, are `none`.
pub record Feeds : Type 0 where
  pub aws : Option (List (Option Text × Option Text) × List (Option Text × Option Text))
  pub gcp : Option (List (Option Text × Option Text))
  pub oracle : Option (List (List (Option Text)))
  pub github : Option (List (Text × Option (List (Option Text))))
  pub fastly : Option (List Text × List Text)
  pub cloudflare_v4 : Option (List Text)
  pub cloudflare_v6 : Option (List Text)
  pub digitalocean : Option (List Text)
  pub tor : Option (List Text)

abbrev pub Counts : Type 0
Counts = Dict Text ℕ

-- `x or y` on a text that may be absent
abbrev or_else : Option Text → Option Text → Option Text
or_else none y = y
or_else (some x) y = if is_nil x then y else some x

abbrev count : Text → Counts → ℕ
count slug added = elim (get slug added) [ none ↦ 0 | some n ↦ n ]

-- `svc.replace("_", "-")`
abbrev dashed : Text → Text
dashed = map (λ c. if eqb c b'_' then b'-' else c)

-- `line.split(",")[0]`
unfoldable pub first_column : Text → Text
first_column [] = []
first_column (c ∷ s) = let rest = first_column s in if eqb c b',' then [] else c ∷ rest

unfoldable pub aws_slug : Option Text → Text
aws_slug service =
    let svc : Text = lower (elim (or_else service none) [ none ↦ codes "AMAZON" | some s ↦ s ]) in
    if svc == codes "amazon" then codes "aws" else codes "aws-" ++ dashed svc

-- An entry of the file of AWS has its prefix.
abbrev pub HasPrefix : Option Text × Option Text → Type 0
HasPrefix e = e.1 ≢ none

abbrev pub HavePrefixes :
    List (Option Text × Option Text) × List (Option Text × Option Text) → Type 0
HavePrefixes lists = All HasPrefix lists.0 × All HasPrefix lists.1

-- A missing file has all its prefixes.
abbrev pub PrefixesOf :
    Option (List (Option Text × Option Text) × List (Option Text × Option Text)) → Type 0
PrefixesOf none = Unit
PrefixesOf (some lists) = HavePrefixes lists

unfoldable pub github_slug : Text → Text
github_slug key =
    if key == codes "web" || key == codes "api" || key == codes "git"
    then codes "github"
    else codes "github-" ++ key

module _ (ip_network : Text → Option Network) where
  -- `add`
  feed_add : Text → ℕ → Counts → Text → Load Counts
  feed_add slug conf added text = do
    aid ← app slug 0
    new ← cidr ip_network text aid 2 conf 0
    pure (if new then put slug (count slug added + 1) added else added)

  -- `add(slug, e[pfx])`, which raises KeyError without a prefix
  aws_row : Counts → Option Text × Option Text → Load Counts
  aws_row added (service, prefix) = on_some prefix raise (feed_add (aws_slug service) 40 added)

  aws_feed :
      Counts → List (Option Text × Option Text) × List (Option Text × Option Text) → Load Counts
  aws_feed added (prefixes, ipv6_prefixes) = do
    a ← for_each aws_row added prefixes
    for_each aws_row a ipv6_prefixes

  gcp_row : Counts → Option Text × Option Text → Load Counts
  gcp_row added (v4, v6) =
      on_some (or_else (or_else v4 v6) none) (pure added) (feed_add (codes "google-cloud") 40 added)

  oracle_cidr : Counts → Option Text → Load Counts
  oracle_cidr added text =
      on_some (or_else text none) (pure added) (feed_add (codes "oracle-cloud") 40 added)

  -- An item that has a slash is added.
  slash_row : Text → Counts → Text → Load Counts
  slash_row slug added text = if has_code b'/' text then feed_add slug 40 added text else pure added

  github_item : Text → Counts → Option Text → Load Counts
  github_item slug added item = on_some item (pure added) (slash_row slug added)

  github_key : Counts → Text × Option (List (Option Text)) → Load Counts
  github_key added (key, val) =
      on_some val (pure added) (for_each (github_item (github_slug key)) added)

  digitalocean_row : Counts → Text → Load Counts
  digitalocean_row added line =
      slash_row (codes "digitalocean") added (strip is_space (first_column line))

  -- A Tor exit is one address.
  tor_row : Counts → Text → Load Counts
  tor_row added line =
      let ip : Text = strip is_space line in
      if not (is_nil ip) && not (starts_with b'#' ip)
      then feed_add (codes "tor") 75 added
          (ip ++ (if not (has_code b':' ip) then codes "/32" else codes "/128"))
      else pure added

  -- A feed that is missing adds nothing.
  feed_of : {X : Type 0} → Option X → (Counts → X → Load Counts) → Counts → Load Counts
  feed_of file body added = on_some file (pure added) (body added)

  -- The feeds behind that of AWS.
  other_feeds : Feeds → Counts → Load (Option Counts)
  unfolding feed_of
  other_feeds f a = do
    b ← feed_of f.gcp (for_each gcp_row) a
    c ← feed_of f.oracle (for_each (for_each oracle_cidr)) b
    d ← feed_of f.github (for_each github_key) c
    e ←
        feed_of f.fastly
          (λ st lists. for_each (feed_add (codes "fastly") 40) st (lists.0 ++ lists.1)) d
    g ← feed_of f.cloudflare_v4 (for_each (slash_row (codes "cloudflare"))) e
    h ← feed_of f.cloudflare_v6 (for_each (slash_row (codes "cloudflare"))) g
    i ← feed_of f.digitalocean (for_each digitalocean_row) h
    j ← feed_of f.tor (for_each tor_row) i
    pure (if is_nil j then none else some j)

  -- `load_cloud_feeds`; `none` is its report that no feed was found
  pub load_cloud_feeds : Feeds → Load (Option Counts)
  unfolding other_feeds feed_of
  load_cloud_feeds f = feed_of f.aws aws_feed [] >>= other_feeds f

  Runs-feed_add :
      (slug : Text) (conf : ℕ) (added : Counts) (text : Text) → Runs (feed_add slug conf added text)
  unfolding feed_add
  Runs-feed_add slug conf added text = search load_rules

  Runs-aws_row :
      (added : Counts) (row : Option Text × Option Text) → HasPrefix row → Runs (aws_row added row)
  unfolding aws_row
  Runs-aws_row added (service, some prefix) h = Runs-feed_add _ 40 added prefix
  Runs-aws_row added (service, none) h = absurd (h refl)

  Runs-aws_feed :
      (added : Counts) (lists : List (Option Text × Option Text) × List (Option Text × Option Text))
      → HavePrefixes lists
      → Runs (aws_feed added lists)
  unfolding aws_feed
  Runs-aws_feed added (prefixes, ipv6_prefixes) h =
      Runs-bind _ _ (Runs-for_each HasPrefix aws_row Runs-aws_row added prefixes h.0)
        (λ a. Runs-for_each HasPrefix aws_row Runs-aws_row a ipv6_prefixes h.1)

  Runs-gcp_row : (added : Counts) (row : Option Text × Option Text) → Runs (gcp_row added row)
  unfolding gcp_row
  Runs-gcp_row added (v4, v6) = search (load_rules, Runs-feed_add)

  Runs-oracle_cidr : (added : Counts) (text : Option Text) → Runs (oracle_cidr added text)
  unfolding oracle_cidr
  Runs-oracle_cidr added text = search (load_rules, Runs-feed_add)

  Runs-slash_row : (slug : Text) (added : Counts) (text : Text) → Runs (slash_row slug added text)
  unfolding slash_row
  Runs-slash_row slug added text = search (load_rules, Runs-feed_add)

  Runs-github_item :
      (slug : Text) (added : Counts) (item : Option Text) → Runs (github_item slug added item)
  unfolding github_item
  Runs-github_item slug added item = search (load_rules, Runs-slash_row)

  Runs-github_key :
      (added : Counts) (entry : Text × Option (List (Option Text))) → Runs (github_key added entry)
  unfolding github_key
  Runs-github_key added (key, val) = search (load_rules, Runs-github_item)

  Runs-digitalocean_row : (added : Counts) (line : Text) → Runs (digitalocean_row added line)
  unfolding digitalocean_row
  Runs-digitalocean_row added line = Runs-slash_row _ added _

  Runs-tor_row : (added : Counts) (line : Text) → Runs (tor_row added line)
  unfolding tor_row
  Runs-tor_row added line = search (load_rules, Runs-feed_add)

  Runs-feed_of :
      {X : Type 0} (file : Option X) (body : Counts → X → Load Counts) (added : Counts)
      → ((x : X) → Runs (body added x))
      → Runs (feed_of file body added)
  unfolding feed_of
  Runs-feed_of none body added h = search load_rules
  Runs-feed_of (some x) body added h = h x

  Runs-feed_aws :
      (file : Option (List (Option Text × Option Text) × List (Option Text × Option Text)))
      (added : Counts)
      → PrefixesOf file
      → Runs (feed_of file aws_feed added)
  unfolding feed_of
  Runs-feed_aws none added h = search load_rules
  Runs-feed_aws (some lists) added h = Runs-aws_feed added lists h

  Runs-other_feeds : (f : Feeds) (a : Counts) → Runs (other_feeds f a)
  unfolding other_feeds
  Runs-other_feeds f a =
      search
        (
          load_rules, Runs-feed_of, Runs-gcp_row, Runs-oracle_cidr, Runs-github_key, Runs-feed_add,
          Runs-slash_row, Runs-digitalocean_row, Runs-tor_row,
        )
        depth 24

  pub Runs-load_cloud_feeds : (f : Feeds) → PrefixesOf f.aws → Runs (load_cloud_feeds f)
  unfolding load_cloud_feeds
  Runs-load_cloud_feeds f h =
      Runs-bind _ (other_feeds f) (Runs-feed_aws f.aws [] h) (λ a. Runs-other_feeds f a)
