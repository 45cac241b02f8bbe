-- ===== src/Sigc/Load/Sound.antt =====
-- The invariant of a builder, and actions that never raise and keep it.
use mathlib.Core.Path.{subst}
use ngfw_policy.Prelude.{
  ℕ, ◌≤◌, ◌<◌, ◌≡◌, refl, sym, Bool, true, false, List, [], ◌∷◌, Option, some, none, Text, All,
  All-any, if◌then◌else◌, nat_eq, list_eq, triple_eq, quad_eq, arith, Dict, get, has, map, IsUnique,
}
use ngfw_policy.Sigc.Builder.{Builder, Meta, new}
use ngfw_policy.Sigc.Builder.Identity.{IsValid, RuleStores, rules, new-IsValid}
use ngfw_policy.Sigc.Builder.Calls.{app-IsValid}
use ngfw_policy.Sigc.Rules
use ngfw_policy.Sigc.Rules.{Network}
use ngfw_policy.Sigc.Rules.Names.{IsDomainName, HasNames, domain-HasNames}
use ngfw_policy.Sigc.Rules.Payloads.{
  IsPattern, HasPatterns, IsByte, IsWholeByte, payload-HasPatterns,
}
use ngfw_policy.Sigc.Rules.Unique.{
  IsIndexed, domain_key, cidr_key, payload_key, domain-IsIndexed, cidr-IsIndexed, payload-IsIndexed,
}
use ngfw_policy.Sigc.Load.{Load, pure, ◌>>=◌, on_some, for_each, app, domain, cidr, payload}

pub record IsSound (b : Builder) : Type 0 where
  pub valid : IsValid b
  pub indexed : IsIndexed b
  pub names : HasNames b
  pub patterns : HasPatterns b

-- In a sound builder the action returns, and leaves a sound builder.
pub record Runs {A : Type 0} (m : Load A) : Type 0 where
  pub at : (b : Builder) → IsSound b → (a : A) × (b' : Builder) × (m b ≡ some (a, b')) × IsSound b'

pub Runs-pure : {A : Type 0} (a : A) → Runs (pure a)
Runs-pure a = record { at = λ b h. (a, b, refl, h) }

pub Runs-bind :
    {A B : Type 0} (m : Load A) (f : A → Load B) → Runs m → ((a : A) → Runs (f a)) → Runs (m >>= f)
Runs-bind m f rm rf = record {
  at = λ b h.
      let (a, b', e, h') = rm.at b h in
      let (c, b'', e', h'') = (rf a).at b' h' in (c, b'', rw (e, ◌>>=◌) e', h'');
}

pub Runs-if : {A : Type 0} (c : Bool) (m n : Load A) → Runs m → Runs n → Runs (if c then m else n)
Runs-if true m n rm rn = rm
Runs-if false m n rm rn = rn

pub Runs-on_some :
    {X A : Type 0} (o : Option X) (m : Load A) (f : X → Load A)
    → Runs m
    → ((x : X) → Runs (f x))
    → Runs (on_some o m f)
Runs-on_some none m f rm rf = rm
Runs-on_some (some x) m f rm rf = rf x

pub Runs-for_each :
    {S X : Type 0} (P : X → Type 0) (body : S → X → Load S)
    → ((s : S) (x : X) → P x → Runs (body s x))
    → (s : S) (xs : List X) → All P xs
    → Runs (for_each body s xs)
unfolding for_each
Runs-for_each P body step s [] h = Runs-pure s
Runs-for_each P body step s (x ∷ xs) h =
    Runs-bind (body s x) (λ s'. for_each body s' xs) (step s x h.0)
      (λ s'. Runs-for_each P body step s' xs h.1)

-- Every rule invariant depends on the six stores alone.
rules-IsIndexed : {b b' : Builder} → rules b' ≡ rules b → IsIndexed b → IsIndexed b'
rules-IsIndexed e v = record {
  domains_seen = subst (λ (r : RuleStores). map domain_key r.0 ≡ r.3) (sym e) v.domains_seen;
  cidrs_seen = subst (λ (r : RuleStores). map cidr_key r.1 ≡ r.4) (sym e) v.cidrs_seen;
  payloads_seen = subst (λ (r : RuleStores). map payload_key r.2 ≡ r.5) (sym e) v.payloads_seen;
  domains_unique = subst (λ (r : RuleStores). IsUnique r.3) (sym e) v.domains_unique;
  cidrs_unique = subst (λ (r : RuleStores). IsUnique r.4) (sym e) v.cidrs_unique;
  payloads_unique = subst (λ (r : RuleStores). IsUnique r.5) (sym e) v.payloads_unique;
}

-- Identity depends on the other three fields.
abbrev Identities : Type 0
Identities = Dict Text ℕ × Dict ℕ Meta × ℕ

abbrev identities : Builder → Identities
identities b = (b.apps, b.app_meta, b.next_id)

identities-IsValid : {b b' : Builder} → identities b' ≡ identities b → IsValid b → IsValid b'
identities-IsValid e v = record {
  positive = subst (λ (r : Identities). 1 ≤ r.2) (sym e) v.positive;
  ids =
      subst
        (λ (r : Identities).
          (k : Text) (a : ℕ) → get k r.0 ≡ some a → (1 ≤ a) × (a < r.2) × (has a r.1 ≡ true))
        (sym e) v.ids;
  metas =
      subst (λ (r : Identities). (a : ℕ) → has a r.1 ≡ true → (1 ≤ a) × (a < r.2)) (sym e) v.metas;
  injective =
      subst
        (λ (r : Identities). (k j : Text) (a : ℕ) → get k r.0 ≡ some a → get j r.0 ≡ some a → k ≡ j)
        (sym e) v.injective;
}

pub Runs-app : (slug : Text) (license_tier : ℕ) → Runs (app slug license_tier)
unfolding app
Runs-app slug license_tier = record {
  at = λ b h.
      let (aid, b', e, v, same) = app-IsValid slug license_tier 0 h.valid in
      (
        aid,
        b',
        e,
        record {
          valid = v;
          indexed = rules-IsIndexed same h.indexed;
          names = subst (λ (r : RuleStores). All (λ d. IsDomainName d.name) r.0) (sym same) h.names;
          patterns = subst (λ (r : RuleStores). All IsPattern r.2) (sym same) h.patterns;
        },
      );
}

domain_frame :
    (raw : Text) (aid : ℕ) (exact : Bool) (tier confidence license_tier : ℕ) (b : Builder)
    → let b' = (Rules.domain raw aid exact tier confidence license_tier b).1 in
      (identities b' ≡ identities b) × (b'.payloads ≡ b.payloads)
unfolding Rules.domain Rules.add_domain
domain_frame raw aid exact tier confidence license_tier b = ground arith

pub Runs-domain :
    (name : Text) (aid tier confidence license_tier : ℕ)
    → Runs (domain name aid tier confidence license_tier)
unfolding domain
Runs-domain name aid tier confidence license_tier = record {
  at = λ b h.
      let (ids, pays) = domain_frame name aid false tier confidence license_tier b in
      let (added, b') = Rules.domain name aid false tier confidence license_tier b in
      (
        added,
        b',
        refl,
        record {
          valid = identities-IsValid ids h.valid;
          indexed = domain-IsIndexed name aid false tier confidence license_tier h.indexed;
          names = domain-HasNames name aid false tier confidence license_tier b h.names;
          patterns = subst (λ l. All IsPattern l) (sym pays) h.patterns;
        },
      );
}

cidr_frame :
    (ip_network : Text → Option Network) (text : Text) (aid tier confidence license_tier : ℕ)
    (b : Builder)
    → let b' = (Rules.cidr ip_network text aid tier confidence license_tier b).1 in
      (identities b' ≡ identities b) × (b'.payloads ≡ b.payloads) × (b'.domains ≡ b.domains)
unfolding Rules.cidr Rules.add_cidr
cidr_frame ip_network text aid tier confidence license_tier b = ground arith

pub Runs-cidr :
    (ip_network : Text → Option Network) (text : Text) (aid tier confidence license_tier : ℕ)
    → Runs (cidr ip_network text aid tier confidence license_tier)
unfolding cidr
Runs-cidr ip_network text aid tier confidence license_tier = record {
  at = λ b h.
      let (ids, pays, doms) = cidr_frame ip_network text aid tier confidence license_tier b in
      let (added, b') = Rules.cidr ip_network text aid tier confidence license_tier b in
      (
        added,
        b',
        refl,
        record {
          valid = identities-IsValid ids h.valid;
          indexed = cidr-IsIndexed ip_network text aid tier confidence license_tier h.indexed;
          names = subst (λ l. All (λ d. IsDomainName d.name) l) (sym doms) h.names;
          patterns = subst (λ l. All IsPattern l) (sym pays) h.patterns;
        },
      );
}

payload_frame :
    (value mask : List ℕ) (aid tier confidence license_tier : ℕ) (b : Builder)
    → let b' = (Rules.payload value mask aid tier confidence license_tier b).1 in
      (identities b' ≡ identities b) × (b'.domains ≡ b.domains)
unfolding Rules.payload Rules.add_payload
payload_frame value mask aid tier confidence license_tier b = ground arith

pub Runs-payload :
    (value mask : List ℕ) (aid tier confidence license_tier : ℕ)
    → All IsByte value
    → All IsWholeByte mask
    → Runs (payload value mask aid tier confidence license_tier)
unfolding payload
Runs-payload value mask aid tier confidence license_tier hv hm = record {
  at = λ b h.
      let (ids, doms) = payload_frame value mask aid tier confidence license_tier b in
      let (added, b') = Rules.payload value mask aid tier confidence license_tier b in
      (
        added,
        b',
        refl,
        record {
          valid = identities-IsValid ids h.valid;
          indexed = payload-IsIndexed value mask aid tier confidence license_tier h.indexed;
          names = subst (λ l. All (λ d. IsDomainName d.name) l) (sym doms) h.names;
          patterns =
              payload-HasPatterns value mask aid tier confidence license_tier b hv hm h.patterns;
        },
      );
}

pub new-IsSound : (aliases : Dict Text Text) (drops : List Text) → IsSound (new aliases drops)
unfolding new
new-IsSound aliases drops = record {
  valid = new-IsValid aliases drops;
  indexed = record {
    domains_seen = refl;
    cidrs_seen = refl;
    payloads_seen = refl;
    domains_unique = tt;
    cidrs_unique = tt;
    payloads_unique = tt;
  };
  names = tt;
  patterns = tt;
}

-- A loop whose body always runs.
pub Runs-loop :
    {S X : Type 0} (body : S → X → Load S)
    → ((s : S) (x : X) → Runs (body s x))
    → (s : S) (xs : List X) → Runs (for_each body s xs)
Runs-loop body step s xs = Runs-for_each (λ x. Unit) body (λ s x _. step s x) s xs (All-any xs)

pub ruleset load_rules = (
  Runs-pure, Runs-bind, Runs-if, Runs-on_some, Runs-app, Runs-domain, Runs-cidr, Runs-payload,
  Runs-loop,
)
