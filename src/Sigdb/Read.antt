-- ===== src/Sigdb/Read.antt =====
-- The readers of a .sigdb file: `load` of tools/export_rules.py and tools/dup_audit.py,
-- `domains_of` of tools/corpus_pcap.py and the tables of `read_corpus` in tools/build_page.py read
-- it in the same way. `decode` is Python's UTF-8 decoder; `none` is `struct.error` or the
-- ValueError of a string without an end.
use ngfw_policy.Prelude.{ℕ, List, [], ◌∷◌, Option, none, some, Text, take, nat_eq}
use ngfw_policy.Sigc.Builder.{CidrRule, DomainRule, PayloadRule}
use ngfw_policy.Sigdb.Struct.{Value, num, bytes, calcsize, unpack, read_rows, slice}
use ngfw_policy.Sigdb.Pool.{string_at}
use ngfw_policy.Sigdb.Write.{hdr_fmt, app_fmt, dom_fmt, cidr_fmt, pay_fmt}

-- The header's fields that the readers use.
pub record Header : Type 0 where
  pub napp : ℕ
  pub ndom : ℕ
  pub pool_sz : ℕ
  pub aoff : ℕ
  pub doff : ℕ
  pub poff : ℕ
  pub ncidr : ℕ
  pub coff : ℕ
  pub npay : ℕ
  pub payoff : ℕ

unfoldable pub header_of : List Value → Option Header
header_of
      (num magic
        ∷ num ver
        ∷ num napp
        ∷ num ndom
        ∷ num pool_sz
        ∷ num aoff
        ∷ num doff
        ∷ num poff
        ∷ num built
        ∷ num ncidr
        ∷ num coff
        ∷ num npay
        ∷ num payoff
        ∷ []) =
    some (record {
      napp = napp;
      ndom = ndom;
      pool_sz = pool_sz;
      aoff = aoff;
      doff = doff;
      poff = poff;
      ncidr = ncidr;
      coff = coff;
      npay = npay;
      payoff = payoff;
    })
header_of _ = none

-- `struct.unpack(HDR_FMT, b[:hs])`
unfoldable pub read_header : List ℕ → Option Header
read_header b = elim (unpack hdr_fmt (take (calcsize hdr_fmt) b)) [
  | none ↦ none
  | some vs ↦ header_of vs
]

-- One app: its id, name and license.
pub record AppEntry : Type 0 where
  pub app_id : ℕ
  pub name : Text
  pub license : ℕ

unfoldable pub cidr_of : List Value → Option CidrRule
cidr_of (bytes raw ∷ num aid ∷ num plen ∷ num af ∷ num tier ∷ num conf ∷ num lic ∷ bytes pad ∷ []) =
    some (record {
      raw = raw;
      app_id = aid;
      prefixlen = plen;
      af = af;
      tier = tier;
      confidence = conf;
      license = lic;
    })
cidr_of _ = none

unfoldable pub payload_of : List Value → Option PayloadRule
payload_of (bytes val ∷ bytes msk ∷ num aid ∷ num tier ∷ num conf ∷ num lic ∷ num pad ∷ []) =
    some (record {
      value = val;
      mask = msk;
      app_id = aid;
      tier = tier;
      confidence = conf;
      license = lic;
    })
payload_of _ = none

-- All rows of a table, or none where one cannot be read.
unfoldable pub all_of : {A : Type 0} → (List Value → Option A) → List (List Value) → Option (List A)
all_of f [] = some []
all_of f (row ∷ rows) =
    let rest = all_of f rows in
    elim (f row) [ none ↦ none | some x ↦ elim rest [ none ↦ none | some xs ↦ some (x ∷ xs) ] ]

unfoldable pub table :
    {A : Type 0} → (List Value → Option A) → Option (List (List Value)) → Option (List A)
unfolding all_of
table f rows = elim rows [ none ↦ none | some rs ↦ all_of f rs ]

-- What a file holds.
pub record Corpus : Type 0 where
  pub apps : List AppEntry
  pub domains : List DomainRule
  pub cidrs : List CidrRule
  pub payloads : List PayloadRule

unfoldable pub corpus_of :
    Option (List AppEntry)
    → Option (List DomainRule)
    → Option (List CidrRule)
    → Option (List PayloadRule)
    → Option Corpus
corpus_of (some a) (some d) (some c) (some p) =
    some (record { apps = a; domains = d; cidrs = c; payloads = p })
corpus_of _ _ _ _ = none

module _ (decode : List ℕ → Text) where
  -- `s(off)`
  unfoldable pub text_at : List ℕ → ℕ → Option Text
  unfolding string_at
  text_at pool off = elim (string_at pool off) [ none ↦ none | some l ↦ some (decode l) ]

  unfoldable pub app_of : List ℕ → List Value → Option AppEntry
  app_of pool (num aid ∷ num noff ∷ num cat ∷ num lic ∷ num p ∷ []) = elim (text_at pool noff) [
    | none ↦ none
    | some name ↦ some (record { app_id = aid; name = name; license = lic })
  ]
  app_of pool _ = none

  unfoldable pub domain_of : List ℕ → List Value → Option DomainRule
  domain_of pool (num noff ∷ num aid ∷ num mt ∷ num conf ∷ num tier ∷ num lic ∷ []) =
      elim (text_at pool noff) [
        | none ↦ none
        | some name ↦ some (record {
          name = name;
          app_id = aid;
          kind = mt;
          confidence = conf;
          tier = tier;
          license = lic;
        })
      ]
  domain_of pool _ = none

  -- The four tables, each at the offset that the header gives.
  unfoldable pub read_tables : List ℕ → Header → Option Corpus
  read_tables b h =
      let pool : List ℕ = slice b h.poff h.pool_sz in
      corpus_of (table (app_of pool) (read_rows app_fmt b h.aoff 0 h.napp))
        (table (domain_of pool) (read_rows dom_fmt b h.doff 0 h.ndom))
        (table cidr_of (read_rows cidr_fmt b h.coff 0 h.ncidr))
        (table payload_of (read_rows pay_fmt b h.payoff 0 h.npay))

  unfoldable pub read_file : List ℕ → Option Corpus
  read_file b = elim (read_header b) [ none ↦ none | some h ↦ read_tables b h ]
