-- ===== src/Sigc/Tests.antt =====
-- Runs of tools/sigc.py on small inputs, and its theorems at such inputs.
use mathlib.Core.Path.{subst}
use mathlib.Core.Option.{some-injective}
use ngfw_policy.Prelude.{
  Bool, ℕ, ◌≡◌, ◌≢◌, ◌↔◌, refl, true, false, List, [], ◌∷◌, Option, none, some, Text, codes, All,
  is_nil, ltb, if◌then◌else◌, lower, inl, inr, arith, get, eqb, min, nat_eq, list_eq, list_beq, ◌∙◌,
  sym, strip, is_space, every, put, add, ◌==◌,
}
use ngfw_policy.Sigc.Slug.{slug, app_key, unknown}
use ngfw_policy.Sigc.Slug.Shape.{IsSlug, slug-IsSlug, slug_idem}
use ngfw_policy.Sigc.Slug.Key.{key-slug}
use ngfw_policy.Sigc.Builder.{Builder, Meta, new, app, known_app, canonical, is_dropped}
use ngfw_policy.Sigc.Builder.Identity.{IsValid, rules}
use ngfw_policy.Sigc.Builder.Calls.{
  start, call, app-IsValid, app_identity, IsRenamed, refresh_entry,
}
use ngfw_policy.Sigc.Rules.{Network, domain, payload, clean_name}
use ngfw_policy.Sigc.Rules.Names.{HasNames, domain-HasNames}
use ngfw_policy.Sigc.Rules.Payloads.{HasPatterns, IsByte, payload-HasPatterns}
use ngfw_policy.Sigc.Rules.Unique.{IsIndexed, payload-IsIndexed}
use ngfw_policy.Sigc.Load.Sound.{IsSound, new-IsSound}
use ngfw_policy.Sigc.Load.Prefixes.Claims.{Claims, collect, hex_digit, LpiFile}
use ngfw_policy.Sigc.Load.Prefixes.{full_mask}
use ngfw_policy.Sigc.Load.OpenAppId.{odp_app_names}
use ngfw_policy.Sigc.Load.Compile.{Trees, load_all, load_all-IsSound}

slug_of_name : slug (codes "  Netify.ICQ Chat! ") ≡ codes "netify-icq-chat"
unfolding slug
slug_of_name = refl

slug_of_nothing : slug (codes "--!") ≡ unknown
unfolding slug
slug_of_nothing = refl

key_of_spellings : app_key (slug (codes "ms_teams")) ≡ app_key (slug (codes "MsTeams"))
unfolding slug app_key
key_of_spellings = refl

slug-IsSlug_example : IsSlug (slug (codes "MS Teams"))
slug-IsSlug_example = slug-IsSlug (codes "MS Teams")

slug_idem_example : slug (slug (codes "MS Teams")) ≡ slug (codes "MS Teams")
slug_idem_example = slug_idem (codes "MS Teams")

key-slug_example : app_key (slug (codes "MS Teams")) ≡ (
    if is_nil (app_key (lower (codes "MS Teams")))
    then unknown
    else app_key (lower (codes "MS Teams")))
key-slug_example = key-slug (codes "MS Teams")

-- A builder whose curation renames `zoom-us` and drops `junk`.
abbrev curated : Builder
curated = new ((codes "zoom-us", codes "zoom") ∷ []) (codes "junk" ∷ [])

abbrev curated-IsSound : IsSound curated
curated-IsSound = new-IsSound ((codes "zoom-us", codes "zoom") ∷ []) (codes "junk" ∷ [])

app-IsValid_example :
    (aid : ℕ) × (b : Builder) × (app (codes "zoom-us") 1 0 curated ≡ some (aid, b))
    × IsValid b
    × (rules b ≡ rules curated)
app-IsValid_example = app-IsValid (codes "zoom-us") 1 0 (curated-IsSound.valid)

abbrev after : Text → ℕ → Builder → Builder
after slug license_tier b = elim (app slug license_tier 0 b) [ none ↦ b | some (aid, b') ↦ b' ]

abbrev one_app : Builder
one_app = after (codes "zoom-us") 1 curated

abbrev two_apps : Builder
two_apps = after (codes "ms-teams") 2 one_app

first_call : app (codes "zoom-us") 1 0 curated ≡ some (1, one_app)
unfolding app new list_beq app_key
first_call = refl

second_call : app (codes "ms-teams") 2 0 one_app ≡ some (2, two_apps)
unfolding app new list_beq app_key
second_call = refl

third_call : app (codes "zo-om") 0 0 two_apps ≡ some (1, after (codes "zo-om") 0 two_apps)
unfolding app new list_beq app_key
third_call = refl

kept_alias : is_dropped (codes "zoom-us") curated ≡ false
unfolding is_dropped new list_beq
kept_alias = refl

kept_spelling : is_dropped (codes "zo-om") curated ≡ false
unfolding is_dropped new list_beq
kept_spelling = refl

app_identity_example :
    (◌≡◌ {A = ℕ} 1 1)
    ↔ (app_key (canonical curated (codes "zoom-us")) ≡ app_key (canonical curated (codes "zo-om")))
app_identity_example =
    app_identity (codes "zoom-us") (codes "zo-om") 1 0 0 0 1 1 (curated-IsSound.valid) kept_alias
      kept_spelling first_call (call (codes "ms-teams") 2 0 2 start second_call) third_call

abbrev zoom_entry : Meta
zoom_entry = record { name = codes "zoom"; category = 0; license = 1 }

listed : get 1 one_app.app_meta ≡ some zoom_entry
unfolding app new get list_beq app_key
listed = refl

refresh_entry_example :
    (b : Builder) × (name : Text) × (known_app (codes "zo-om") 0 1 one_app ≡ some (1, b))
    × IsRenamed (codes "zo-om") zoom_entry.name name
    × (get 1 b.app_meta ≡ (
        if eqb 1 1
        then some (record {
          name = name;
          category = zoom_entry.category;
          license = min 0 zoom_entry.license;
        })
        else get 1 one_app.app_meta))
refresh_entry_example = refresh_entry (codes "zo-om") 0 1 1 zoom_entry one_app listed

name_is_cleaned :
    clean_name (codes " .Teams.Microsoft.COM. ") true ≡ some (codes "teams.microsoft.com", 0)
unfolding clean_name
name_is_cleaned = refl

name_is_refused : clean_name (codes "a..b") true ≡ none
unfolding clean_name
name_is_refused = refl

domain-HasNames_example : HasNames (domain (codes ".Zoom.US.") 1 false 1 85 0 curated).1
domain-HasNames_example =
    domain-HasNames (codes ".Zoom.US.") 1 false 1 85 0 curated (curated-IsSound.names)

-- A parser that knows one network, 10.0.0.0/8.
abbrev ten : Text → Option Network
ten text =
    if is_nil text
    then none
    else some (record { packed = 10 ∷ 0 ∷ 0 ∷ 0 ∷ []; version = 4; prefixlen = 8 })

abbrev ssh : List ℕ
ssh = b'S' ∷ b'S' ∷ b'H' ∷ b'-' ∷ []

abbrev whole : List ℕ
whole = 255 ∷ 255 ∷ 255 ∷ 0 ∷ []

payload-IsIndexed_example : IsIndexed (payload ssh whole 1 0 55 1 curated).1
payload-IsIndexed_example = payload-IsIndexed ssh whole 1 0 55 1 (curated-IsSound.indexed)

payload-HasPatterns_example : HasPatterns (payload ssh whole 1 0 55 1 curated).1
payload-HasPatterns_example =
    payload-HasPatterns ssh whole 1 0 55 1 curated
      (omega arith, (omega arith, (omega arith, (omega arith, tt))))
      (inr refl, (inr refl, (inr refl, (inl refl, tt)))) (curated-IsSound.patterns)

framing_is_refused :
    (payload
      (0x16 ∷ 0x03 ∷ 1 ∷ 2 ∷ [])
      (255 ∷ 255 ∷ 255 ∷ 255 ∷ [])
      1
      0
      65
      1
      curated).1.reserved_dropped
    ≡ 1
unfolding payload new
framing_is_refused = refl

-- A mask that pins some bits of a byte stores a pattern that pins the TLS framing.
partial_mask_is_stored :
    (payload (0x36 ∷ 0x03 ∷ 1 ∷ 2 ∷ []) (0x1f ∷ 255 ∷ 255 ∷ 255 ∷ []) 1 0 65 1 curated).1.payloads
    ≡ record {
      value = 0x16 ∷ 0x03 ∷ 1 ∷ 2 ∷ [];
      mask = 0x1f ∷ 255 ∷ 255 ∷ 255 ∷ [];
      app_id = 1;
      tier = 0;
      confidence = 65;
      license = 1;
    }
      ∷ []
unfolding payload new
partial_mask_is_stored = refl

-- A decoder of literals without an escape.
plain_bytes : Text → List ℕ
plain_bytes [] = []
plain_bytes (c ∷ t) = let rest = plain_bytes t in if ltb c 256 then c ∷ rest else rest

plain_bytes-IsByte : (t : Text) → All IsByte (plain_bytes t)
unfolding plain_bytes
plain_bytes-IsByte [] = tt
plain_bytes-IsByte (c ∷ t) = ground (arith, plain_bytes-IsByte t)

abbrev lpi_files : List LpiFile
lpi_files =
    record {
      app = codes "ssh";
      strings = codes "SSH-2.0" ∷ [];
      matches = (codes "0x13", codes "'B'", codes "ANY", codes "0x0a") ∷ [];
    }
    ∷ []

abbrev trees : Trees
trees = record {
  netify =
      some (codes "app:12:netify.zoom" ∷ codes "dom:12:zoom.us" ∷ codes "net:12:10.0.0.0/8" ∷ []);
  ndpi_hosts = some ((codes "teams.microsoft.com", codes "MSTEAMS") ∷ []);
  openappid = some ((((7, codes "slack.com") ∷ []), []) ∷ []);
  mapping = codes "7\tSlack" ∷ [];
  mmt_dpi = none;
  libprotoident = some lpi_files;
  mmt_payload = (codes "proto_ssh", codes "SSH-" ∷ []) ∷ [];
  ndpi_payload = (codes "bittorrent", codes "d1:ad2" ∷ []) ∷ [];
  feeds = record {
    aws = some ((none, some (codes "3.0.0.0/8")) ∷ [], []);
    gcp = none;
    oracle = none;
    github = some ((codes "hooks", some (some (codes "10.0.0.0/8") ∷ [])) ∷ []);
    fastly = none;
    cloudflare_v4 = none;
    cloudflare_v6 = none;
    digitalocean = none;
    tor = some (codes "1.2.3.4" ∷ []);
  };
}

abbrev lpi_claims : Claims
lpi_claims =
    ((b'S' ∷ b'S' ∷ b'H' ∷ b'-' ∷ [], full_mask), codes "ssh" ∷ [])
    ∷ ((0x13 ∷ b'B' ∷ 0 ∷ 0x0a ∷ [], 255 ∷ 255 ∷ 0 ∷ 255 ∷ []), codes "ssh" ∷ [])
    ∷ []

collected : collect plain_bytes lpi_files [] ≡ some lpi_claims
unfolding collect plain_bytes list_beq strip is_space hex_digit every put add get
collected = refl

decodes : collect plain_bytes lpi_files [] ≢ none
decodes h = absurd (cc (sym h ∙ collected))

-- A reader of one number, 7.
abbrev seven : Text → Option ℕ
seven text = if text == codes "7" then some 7 else none

abbrev is_seven : Text → Bool
is_seven text = text == codes "7"

numbered : odp_app_names is_seven seven (codes "7\tSlack" ∷ []) ≡ some ((7, codes "Slack") ∷ [])
unfolding odp_app_names list_beq strip is_space
numbered = refl

has_prefix : ◌≢◌ {A = Option Text} (some (codes "3.0.0.0/8")) none
has_prefix h = cc

load_all-IsSound_example :
    (b : Builder) × (load_all plain_bytes is_seven seven ten is_nil trees curated ≡ some (tt, b))
    × IsSound b
load_all-IsSound_example =
    load_all-IsSound plain_bytes plain_bytes-IsByte is_seven seven ten is_nil trees
      (λ files e. subst (λ fs. collect plain_bytes fs [] ≢ none) (some-injective _ _ e) decodes)
      (λ h. absurd (cc (sym h ∙ numbered))) ((has_prefix, tt), tt)
      ((codes "zoom-us", codes "zoom") ∷ []) (codes "junk" ∷ [])
