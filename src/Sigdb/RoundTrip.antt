-- ===== src/Sigdb/RoundTrip.antt =====
-- A file that `serialize` has written is read back whole.
pub mod Parts
pub mod Tables
use mathlib.Core.List.{append_assoc, append-nil}
use ngfw_policy.Prelude.{
  ℕ, suc, ◌+◌, ◌*◌, ◌≡◌, refl, sym, ap, ◌∙◌, List, [], ◌∷◌, ◌++◌, Option, none, some, Text, All,
  map, length, arith, length-append,
}
use ngfw_policy.Sigc.Builder.{Builder, Meta, DomainRule, CidrRule, PayloadRule}
use ngfw_policy.Sigdb.Struct.{Field, Value, pack_rows, read_rows, slice}
use ngfw_policy.Sigdb.Struct.RoundTrip.{FitRows, FitsRow, read_rows-pack_rows, slice-append_middle}
use ngfw_policy.Sigdb.Pool.{empty_pool, intern_all}
use ngfw_policy.Sigdb.Pool.Strings.{empty_pool-IsPool, intern_all_lem, AllAt-Grows}
use ngfw_policy.Sigdb.Write.{
  app_fmt, dom_fmt, cidr_fmt, pay_fmt, app_row, dom_row, cidr_row, pay_row, rows_at, kept_apps,
  kept_domains, kept_cidrs, kept_payloads, serialize,
}
use ngfw_policy.Sigdb.Write.Kept.{
  kept_apps-All, kept_domains-All, kept_cidrs-All, kept_payloads-All,
}
use ngfw_policy.Sigdb.Read.{
  Corpus, AppEntry, Header, app_of, domain_of, cidr_of, payload_of, all_of, table, corpus_of,
  read_tables, read_file,
}
use Parts.{Packed, Layout, serialize_lem}
use Tables.{
  IsPlain, app_entry, length-rows_at, all_of-rows_at, FitRows-map, FitRows-rows_at, all_of-cidrs,
  all_of-payloads, app_rows, domain_rows,
}

-- What the file can hold: plain names, addresses of 16 bytes and patterns of four.
pub record IsWritable (b : Builder) : Type 0 where
  pub app_names : All (λ x. IsPlain x.1.name) b.app_meta
  pub domain_names : All (λ x. IsPlain x.name) b.domains
  pub addresses : All (λ x. length x.raw ≡ 16) b.cidrs
  pub patterns : All (λ x. (length x.value ≡ 4) × (length x.mask ≡ 4)) b.payloads

-- A table at its place in the file, with as many rows as the header says.
table_lem :
    {A : Type 0} (f : List Value → Option A) (fmt : List Field) (rows : List (List Value))
    (xs : List A) (pre mid post b : List ℕ) (off n : ℕ)
    → FitRows fmt rows
    → pack_rows fmt rows ≡ some mid
    → b ≡ pre ++ (mid ++ post)
    → off ≡ length pre
    → length rows ≡ n
    → all_of f rows ≡ some xs
    → table f (read_rows fmt b off 0 n) ≡ some xs
unfolding table
table_lem f fmt rows xs pre mid post b off n fit packed place at len read =
    rw
      (
        ← len,
        read_rows-pack_rows fmt rows pre mid post b off 0 fit packed place (omega (arith, at)),
        table,
      )
      read

length-map {ℓ κ} :
    {A : Type ℓ} {B : Type κ} (f : A → B) (xs : List A) → length (map f xs) ≡ length xs
length-map f [] = refl
length-map f (x ∷ xs) = ap suc (length-map f xs)

map-id {ℓ} : {A : Type ℓ} (xs : List A) → map (λ x. x) xs ≡ xs
map-id [] = refl
map-id (x ∷ xs) = ap (λ t. x ∷ t) (map-id xs)

cidr_fit :
    (cs : List CidrRule)
    → All (λ x. length x.raw ≡ 16) cs
    → All (λ x. FitsRow cidr_fmt (cidr_row x)) cs
cidr_fit [] h = tt
cidr_fit (c ∷ cs) h = (omega (arith, h.0), cidr_fit cs h.1)

payload_fit :
    (qs : List PayloadRule)
    → All (λ x. (length x.value ≡ 4) × (length x.mask ≡ 4)) qs
    → All (λ x. FitsRow pay_fmt (pay_row x)) qs
payload_fit [] h = tt
payload_fit (q ∷ qs) h = (omega (arith, h.0), payload_fit qs h.1)

read_tables_lem :
    (decode : List ℕ → Text) (b : List ℕ) (h : Header) {pool : List ℕ} {apps : List AppEntry}
    {doms : List DomainRule} {cids : List CidrRule} {pays : List PayloadRule}
    → slice b h.poff h.pool_sz ≡ pool
    → table (app_of decode pool) (read_rows app_fmt b h.aoff 0 h.napp) ≡ some apps
    → table (domain_of decode pool) (read_rows dom_fmt b h.doff 0 h.ndom) ≡ some doms
    → table cidr_of (read_rows cidr_fmt b h.coff 0 h.ncidr) ≡ some cids
    → table payload_of (read_rows pay_fmt b h.payoff 0 h.npay) ≡ some pays
    → read_tables decode b h
      ≡ some (record { apps = apps; domains = doms; cidrs = cids; payloads = pays })
unfolding read_tables corpus_of
read_tables_lem decode b h e₀ e₁ e₂ e₃ e₄ = rw (e₀, e₁, e₂, e₃, e₄, corpus_of) refl

-- Each part of the file, with what stands before and behind it.
module _ {n m k j : ℕ} {a d c p pool blob : List ℕ} (l : Layout n m k j a d c p pool blob) where
  domains_at : blob ≡ (l.hdr ++ a) ++ (d ++ (c ++ (p ++ pool)))
  domains_at = l.blob_eq ∙ sym (append_assoc l.hdr a _)

  cidrs_at : blob ≡ ((l.hdr ++ a) ++ d) ++ (c ++ (p ++ pool))
  cidrs_at = domains_at ∙ sym (append_assoc (l.hdr ++ a) d _)

  payloads_at : blob ≡ (((l.hdr ++ a) ++ d) ++ c) ++ (p ++ pool)
  payloads_at = cidrs_at ∙ sym (append_assoc ((l.hdr ++ a) ++ d) c _)

  pool_at : blob ≡ ((((l.hdr ++ a) ++ d) ++ c) ++ p) ++ (pool ++ [])
  pool_at =
      payloads_at
      ∙ sym (append_assoc (((l.hdr ++ a) ++ d) ++ c) p pool)
      ∙ ap (λ t. ((((l.hdr ++ a) ++ d) ++ c) ++ p) ++ t) (sym (append-nil pool))

  domains_off : 56 + length a ≡ length (l.hdr ++ a)
  domains_off = omega (arith, length-append l.hdr a, l.size)

  cidrs_off : 56 + length a + length d ≡ length ((l.hdr ++ a) ++ d)
  cidrs_off = omega (arith, length-append (l.hdr ++ a) d, domains_off)

  payloads_off : 56 + length a + length d + length c ≡ length (((l.hdr ++ a) ++ d) ++ c)
  payloads_off = omega (arith, length-append ((l.hdr ++ a) ++ d) c, cidrs_off)

  pool_off :
      56 + length a + length d + length c + length p ≡ length ((((l.hdr ++ a) ++ d) ++ c) ++ p)
  pool_off = omega (arith, length-append (((l.hdr ++ a) ++ d) ++ c) p, payloads_off)

  pool_slice : slice blob (56 + length a + length d + length c + length p) (length pool) ≡ pool
  pool_slice =
      rw (pool_at, pool_off) (slice-append_middle ((((l.hdr ++ a) ++ d) ++ c) ++ p) pool [])

-- A file of the license tier `max` that is written without an error is read back as the apps that
-- the tier keeps, each with its id, name and license, and as the rules that it keeps, with every
-- field, all in their order, where the decoder keeps ASCII, the names are ASCII without a zero
-- character, addresses have 16 bytes and patterns four. The category of an app, which is written,
-- is read by no tool, and nothing is said of it.
pub read_file-serialize :
    (decode : List ℕ → Text)
    → ((s : Text) → IsPlain s → decode s ≡ s)
    → (max now : ℕ) (b : Builder) (blob : List ℕ) → IsWritable b
    → serialize max now b ≡ some blob
    → read_file decode blob
      ≡ some (record {
        apps = map app_entry (kept_apps max b);
        domains = kept_domains max b;
        cidrs = kept_cidrs max b;
        payloads = kept_payloads max b;
      })
unfolding read_file
read_file-serialize decode ascii max now b blob w h =
    let pk = serialize_lem max now b blob h in
    let l = pk.layout in
    let apps = kept_apps max b in
    let doms = kept_domains max b in
    let cids = kept_cidrs max b in
    let pays = kept_payloads max b in
    let first = intern_all (map (λ x. x.1.name) apps) empty_pool in
    let second = intern_all (map (λ x. x.name) doms) first.1 in
    let (v₁, g₁, at₁) = intern_all_lem (map (λ x. x.1.name) apps) empty_pool empty_pool-IsPool in
    let (v₂, g₂, at₂) = intern_all_lem (map (λ x. x.name) doms) first.1 v₁ in
    let at₁' = AllAt-Grows (map (λ x. x.1.name) apps) first.0 g₂ at₁ in
    rw (l.header_eq, read_file)
      (read_tables_lem decode blob _ (pool_slice l)
        (table_lem (app_of decode second.1.bytes) app_fmt (rows_at app_row apps first.0)
          (map app_entry apps) l.hdr pk.a _ blob 56 (length apps)
          (FitRows-rows_at app_fmt app_row apps first.0 (λ x o. omega arith)) pk.apps_eq l.blob_eq
          (sym l.size) (length-rows_at app_row (λ x. x.1.name) second.1 apps first.0 at₁')
          (all_of-rows_at app_row (λ x. x.1.name) (app_of decode second.1.bytes) app_entry second.1
            apps first.0 at₁'
            (app_rows decode ascii second.1 apps v₂ (kept_apps-All _ max b w.app_names))))
        (table_lem (domain_of decode second.1.bytes) dom_fmt (rows_at dom_row doms second.0) doms
          (l.hdr ++ pk.a) pk.d _ blob _ (length doms)
          (FitRows-rows_at dom_fmt dom_row doms second.0 (λ x o. omega arith)) pk.domains_eq
          (domains_at l) (domains_off l)
          (length-rows_at dom_row (λ x. x.name) second.1 doms second.0 at₂)
          (all_of-rows_at dom_row (λ x. x.name) (domain_of decode second.1.bytes) (λ x. x) second.1
              doms second.0 at₂
              (domain_rows decode ascii second.1 doms v₂ (kept_domains-All _ max b w.domain_names))
            ∙ ap some (map-id doms)))
        (table_lem cidr_of cidr_fmt (map cidr_row cids) cids ((l.hdr ++ pk.a) ++ pk.d) pk.c _ blob _
          (length cids)
          (FitRows-map cidr_fmt cidr_row cids (cidr_fit cids (kept_cidrs-All _ max b w.addresses)))
          pk.cidrs_eq (cidrs_at l) (cidrs_off l) (length-map cidr_row cids) (all_of-cidrs cids))
        (table_lem payload_of pay_fmt (map pay_row pays) pays (((l.hdr ++ pk.a) ++ pk.d) ++ pk.c)
          pk.p _ blob _ (length pays)
          (FitRows-map pay_fmt pay_row pays
            (payload_fit pays (kept_payloads-All _ max b w.patterns)))
          pk.payloads_eq (payloads_at l) (payloads_off l) (length-map pay_row pays)
          (all_of-payloads pays)))
