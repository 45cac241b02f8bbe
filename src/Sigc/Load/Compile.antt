-- ===== src/Sigc/Load/Compile.antt =====
-- The build of tools/sigc.py: `main` runs every loader on one builder, in its order, and writes
-- what the license tier allows. The vendored trees and the curation files are its input.
use ngfw_policy.Prelude.{
  ℕ, ◌≡◌, ◌≢◌, refl, Bool, List, [], Option, none, some, Text, Dict, codes, All, Option-cases, inl,
  inr,
}
use ngfw_policy.Sigc.Builder.{Builder, new}
use ngfw_policy.Sigc.Rules.{Network}
use ngfw_policy.Sigc.Rules.Payloads.{IsByte}
use ngfw_policy.Sigc.Load.{Load, pure, ◌>>=◌}
use ngfw_policy.Sigc.Load.Sound.{Runs, IsSound, Runs-pure, Runs-bind, new-IsSound}
use ngfw_policy.Sigc.Load.Netify.{load_netify, Runs-load_netify}
use ngfw_policy.Sigc.Load.Hosts.{
  load_ndpi_hosts, load_mmt_dpi, Runs-load_ndpi_hosts, Runs-load_mmt_dpi,
}
use ngfw_policy.Sigc.Load.OpenAppId.{odp_app_names, load_openappid, Runs-load_openappid}
use ngfw_policy.Sigc.Load.Prefixes.{load_protoident}
use ngfw_policy.Sigc.Load.Prefixes.Claims.{LpiFile, collect}
use ngfw_policy.Sigc.Load.Prefixes.Shape.{Runs-load_libprotoident}
use ngfw_policy.Sigc.Load.Harvest.{
  load_mmt_payload, load_ndpi_payload, Runs-load_mmt_payload, Runs-load_ndpi_payload,
}
use ngfw_policy.Sigc.Load.Feeds.{Feeds, PrefixesOf, load_cloud_feeds, Runs-load_cloud_feeds}

-- What the loaders read. A tree that is not vendored is `none`.
pub record Trees : Type 0 where
  pub netify : Option (List Text)
  pub ndpi_hosts : Option (List (Text × Text))
  pub openappid : Option (List (List (ℕ × Text) × List (Text × ℕ)))
  pub mapping : List Text
  pub mmt_dpi : Option (List (List (Text × Text)))
  pub libprotoident : Option (List LpiFile)
  pub mmt_payload : List (Text × List Text)
  pub ndpi_payload : List (Text × List Text)
  pub feeds : Feeds

-- `b._current_source = name`, then the loader; its report is printed
from_source : {A : Type 0} → Text → Load A → Load Unit
from_source name loader b = elim (loader (record b { current_source = name })) [
  | none ↦ none
  | some (report, b') ↦ some (tt, b')
]

-- A loader of a tree that may be missing.
if_vendored : {X A : Type 0} → Option X → (X → Load A) → Load Unit
if_vendored none loader = pure tt
if_vendored (some x) loader = loader x >>= λ report. pure tt

module _ (c_string_bytes : Text → List ℕ) where
  -- `load_libprotoident`: the claims of all files, then the filters
  unfoldable pub load_libprotoident : List LpiFile → Load Unit
  load_libprotoident files b = elim (collect c_string_bytes files []) [
    | none ↦ none
    | some claims ↦ (load_protoident claims >>= λ out. pure tt) b
  ]

  module _ (is_digits : Text → Bool) (int_of : Text → Option ℕ) (ip_network : Text → Option Network)
      (is_address : Text → Bool) where
    -- The loop of `main` over the loaders.
    pub load_all : Trees → Load Unit
    unfolding from_source if_vendored
    load_all t = do
      _ ← from_source (codes "netify") (if_vendored t.netify (load_netify ip_network))
      _ ← from_source (codes "ndpi-hosts") (load_ndpi_hosts is_address t.ndpi_hosts)
      _ ← from_source (codes "openappid") (load_openappid is_digits int_of t.openappid t.mapping)
      _ ← from_source (codes "mmt-dpi") (load_mmt_dpi t.mmt_dpi)
      _ ← from_source (codes "libprotoident") (if_vendored t.libprotoident load_libprotoident)
      _ ← from_source (codes "mmt-payload") (load_mmt_payload c_string_bytes t.mmt_payload)
      _ ← from_source (codes "ndpi-payload") (load_ndpi_payload c_string_bytes t.ndpi_payload)
      from_source (codes "cloud-feeds") (load_cloud_feeds ip_network t.feeds)

Runs-from_source :
    {A : Type 0} (name : Text) (loader : Load A) → Runs loader → Runs (from_source name loader)
unfolding from_source
Runs-from_source name loader r = record {
  at = λ b h.
      let (report, b', e, h') =
        r.at (record b { current_source = name })
          (record {
            valid = record {
              positive = h.valid.positive;
              ids = h.valid.ids;
              metas = h.valid.metas;
              injective = h.valid.injective;
            };
            indexed = record {
              domains_seen = h.indexed.domains_seen;
              cidrs_seen = h.indexed.cidrs_seen;
              payloads_seen = h.indexed.payloads_seen;
              domains_unique = h.indexed.domains_unique;
              cidrs_unique = h.indexed.cidrs_unique;
              payloads_unique = h.indexed.payloads_unique;
            };
            names = h.names;
            patterns = h.patterns;
          }) in
      (tt, b', rw (e, from_source) refl, h');
}

Runs-if_vendored :
    {X A : Type 0} (tree : Option X) (loader : X → Load A)
    → ((x : X) → tree ≡ some x → Runs (loader x))
    → Runs (if_vendored tree loader)
unfolding if_vendored
Runs-if_vendored none loader r = Runs-pure tt
Runs-if_vendored (some x) loader r = Runs-bind (loader x) _ (r x refl) (λ report. Runs-pure tt)

-- No pattern of libprotoident has a value above a byte.
abbrev pub IsDecodable : (Text → List ℕ) → List LpiFile → Type 0
IsDecodable c_string_bytes files = collect c_string_bytes files [] ≢ none

Runs-load_libprotoident_files :
    (c_string_bytes : Text → List ℕ)
    → ((t : Text) → All IsByte (c_string_bytes t))
    → (files : List LpiFile) → IsDecodable c_string_bytes files
    → Runs (load_libprotoident c_string_bytes files)
unfolding load_libprotoident
Runs-load_libprotoident_files c_string_bytes decoded files ok =
    elim (Option-cases (collect c_string_bytes files [])) [
      | inl raised ↦ absurd (ok raised)
      | inr (claims, e) ↦ record {
        at = λ b h.
            let r =
              Runs-bind _ _ (Runs-load_libprotoident c_string_bytes decoded files claims e)
                (λ out. Runs-pure tt) in
            let (u, b', e', h') = r.at b h in (u, b', rw (e, load_libprotoident) e', h');
      }
    ]

module _ (c_string_bytes : Text → List ℕ) (decoded : (t : Text) → All IsByte (c_string_bytes t))
    (is_digits : Text → Bool) (int_of : Text → Option ℕ) (ip_network : Text → Option Network)
    (is_address : Text → Bool) (t : Trees)
    (decodable : (files : List LpiFile)
      → t.libprotoident ≡ some files
      → IsDecodable c_string_bytes files)
    (numbered : odp_app_names is_digits int_of t.mapping ≢ none)
    (prefixed : PrefixesOf t.feeds.aws) where
  Runs-load_all : Runs (load_all c_string_bytes is_digits int_of ip_network is_address t)
  unfolding load_all
  Runs-load_all =
      Runs-bind _ _
        (Runs-from_source _ _ (Runs-if_vendored t.netify _ (λ x _. Runs-load_netify ip_network x)))
        λ _.
          Runs-bind _ _ (Runs-from_source _ _ (Runs-load_ndpi_hosts is_address t.ndpi_hosts)) λ _.
            Runs-bind _ _
              (Runs-from_source _ _
                (Runs-load_openappid is_digits int_of t.openappid t.mapping numbered))
              λ _. Runs-bind _ _ (Runs-from_source _ _ (Runs-load_mmt_dpi t.mmt_dpi)) λ _.
                Runs-bind _ _
                  (Runs-from_source _ _ (
                    Runs-if_vendored t.libprotoident _ (λ files e.
                      Runs-load_libprotoident_files c_string_bytes decoded files
                        (decodable files e))))
                  λ _.
                    Runs-bind _ _
                      (Runs-from_source _ _
                        (Runs-load_mmt_payload c_string_bytes decoded t.mmt_payload))
                      λ _.
                        Runs-bind _ _
                          (Runs-from_source _ _
                            (Runs-load_ndpi_payload c_string_bytes decoded t.ndpi_payload))
                          λ _.
                            Runs-from_source _ _ (Runs-load_cloud_feeds ip_network t.feeds prefixed)

  -- A build from a fresh builder and any curation does not raise, where the decoder of C literals
  -- yields bytes, no libprotoident pattern has a value above a byte, `int` reads every id of the
  -- OpenAppID mapping that `isdigit` takes, and every entry of the AWS feed has its prefix. It ends in a builder that
  -- is sound: ids, entries and keys agree, no rule is stored twice, every domain name has at least
  -- two labels, and no payload rule is a dropped app's, wild, or a pin of a reserved framing.
  pub load_all-IsSound :
      (aliases : Dict Text Text) (drops : List Text)
      → (b : Builder) × (load_all c_string_bytes is_digits int_of ip_network is_address t
            (new aliases drops)
          ≡ some (tt, b))
        × IsSound b
  load_all-IsSound aliases drops =
      let (u, b, e, h) = Runs-load_all.at (new aliases drops) (new-IsSound aliases drops) in
      (b, e, h)
