-- ===== src/Sigdb/RoundTrip/Parts.antt =====
-- What a successful `serialize` has packed, and the layout of its file.
use mathlib.Core.Option.{some-injective}
use ngfw_policy.Prelude.{
  ℕ, ◌+◌, ◌≡◌, refl, sym, ap, ◌∙◌, List, [], ◌∷◌, ◌++◌, some, map, length, arith, Option-cases, inl,
  inr, take-append_left,
}
use ngfw_policy.Sigc.Builder.{Builder}
use ngfw_policy.Sigdb.Struct.{Value, num, calcsize, pack, unpack, pack_rows}
use ngfw_policy.Sigdb.Struct.RoundTrip.{pack_lem, unpack-pack}
use ngfw_policy.Sigdb.Pool.{empty_pool, intern_all}
use ngfw_policy.Sigdb.Write.{
  magic, version, hdr_fmt, app_fmt, dom_fmt, cidr_fmt, pay_fmt, kept_apps, kept_domains, kept_cidrs,
  kept_payloads, app_row, dom_row, cidr_row, pay_row, rows_at, assemble, serialize,
}
use ngfw_policy.Sigdb.Read.{header_of, read_header}

-- The file of five parts behind a header of 56 bytes.
pub record Layout (napp ndom ncidr npay : ℕ) (a d c p pool blob : List ℕ) : Type 0 where
  pub hdr : List ℕ
  pub size : length hdr ≡ 56
  pub blob_eq : blob ≡ hdr ++ (a ++ (d ++ (c ++ (p ++ pool))))
  pub header_eq :
      read_header blob
      ≡ some (record {
        napp = napp;
        ndom = ndom;
        pool_sz = length pool;
        aoff = 56;
        doff = 56 + length a;
        poff = 56 + length a + length d + length c + length p;
        ncidr = ncidr;
        coff = 56 + length a + length d;
        npay = npay;
        payoff = 56 + length a + length d + length c;
      })

abbrev hdr_values : ℕ → ℕ → ℕ → ℕ → ℕ → List ℕ → List ℕ → List ℕ → List ℕ → List ℕ → List Value
hdr_values napp ndom ncidr npay now a d c p pool =
    num magic
    ∷ num version
    ∷ num napp
    ∷ num ndom
    ∷ num (length pool)
    ∷ num (calcsize hdr_fmt)
    ∷ num (calcsize hdr_fmt + length a)
    ∷ num (calcsize hdr_fmt + length a + length d + length c + length p)
    ∷ num now
    ∷ num ncidr
    ∷ num (calcsize hdr_fmt + length a + length d)
    ∷ num npay
    ∷ num (calcsize hdr_fmt + length a + length d + length c)
    ∷ []

read_header-append :
    (vs : List Value) (hdr rest : List ℕ)
    → pack hdr_fmt vs ≡ some hdr
    → length hdr ≡ 56
    → unpack hdr_fmt hdr ≡ some vs
    → read_header (hdr ++ rest) ≡ header_of vs
unfolding read_header
read_header-append vs hdr rest h len e = rw (← len, take-append_left hdr rest, e, read_header) refl

pub assemble_lem :
    (napp ndom ncidr npay now : ℕ) (a d c p pool blob : List ℕ)
    → assemble napp ndom ncidr npay now a d c p pool ≡ some blob
    → Layout napp ndom ncidr npay a d c p pool blob
unfolding assemble header_of
assemble_lem napp ndom ncidr npay now a d c p pool blob h =
    let vs : List Value = hdr_values napp ndom ncidr npay now a d c p pool in
    let rest : List ℕ = a ++ (d ++ (c ++ (p ++ pool))) in
    elim (Option-cases (pack hdr_fmt vs)) [
      | inl refused ↦ absurd (cc (rw (refused, assemble) at h))
      | inr (hdr, e) ↦
          let len = (pack_lem hdr_fmt vs hdr (omega arith) e).0 in
          let whole : blob ≡ hdr ++ rest = sym (some-injective _ _ (rw (e, assemble) at h)) in
          record {
            hdr = hdr;
            size = len;
            blob_eq = whole;
            header_eq =
                ap read_header whole
                ∙ read_header-append vs hdr rest e len (unpack-pack hdr_fmt vs hdr (omega arith) e);
          }
    ]

-- The parts of a file that `serialize` has written.
pub record Packed (max now : ℕ) (b : Builder) (blob : List ℕ) : Type 0 where
  pub a : List ℕ
  pub d : List ℕ
  pub c : List ℕ
  pub p : List ℕ
  pub apps_eq :
      pack_rows app_fmt (
        rows_at app_row
          (kept_apps max b)
          (intern_all (map (λ x. x.1.name) (kept_apps max b)) empty_pool).0)
      ≡ some a
  pub domains_eq :
      let q = (intern_all (map (λ x. x.1.name) (kept_apps max b)) empty_pool).1 in
      pack_rows dom_fmt (
        rows_at dom_row
          (kept_domains max b)
          (intern_all (map (λ x. x.name) (kept_domains max b)) q).0)
      ≡ some d
  pub cidrs_eq : pack_rows cidr_fmt (map cidr_row (kept_cidrs max b)) ≡ some c
  pub payloads_eq : pack_rows pay_fmt (map pay_row (kept_payloads max b)) ≡ some p
  pub layout :
      let q = (intern_all (map (λ x. x.1.name) (kept_apps max b)) empty_pool).1 in
      Layout
        (length (kept_apps max b))
        (length (kept_domains max b))
        (length (kept_cidrs max b))
        (length (kept_payloads max b))
        a
        d
        c
        p
        (intern_all (map (λ x. x.name) (kept_domains max b)) q).1.bytes
        blob

pub serialize_lem :
    (max now : ℕ) (b : Builder) (blob : List ℕ)
    → serialize max now b ≡ some blob
    → Packed max now b blob
unfolding serialize
serialize_lem max now b blob h =
    let apps = kept_apps max b in
    let doms = kept_domains max b in
    let first = intern_all (map (λ x. x.1.name) apps) empty_pool in
    let second = intern_all (map (λ x. x.name) doms) first.1 in
    elim (Option-cases (pack_rows app_fmt (rows_at app_row apps first.0))) [
      | inl bad ↦ absurd (cc (rw (bad, serialize) at h))
      | inr (a, ea) ↦ elim (Option-cases (pack_rows dom_fmt (rows_at dom_row doms second.0))) [
        | inl bad ↦ absurd (cc (rw (ea, bad, serialize) at h))
        | inr (d, ed) ↦ elim (Option-cases (pack_rows cidr_fmt (map cidr_row (kept_cidrs max b)))) [
          | inl bad ↦ absurd (cc (rw (ea, ed, bad, serialize) at h))
          | inr (c, ec) ↦
              elim (Option-cases (pack_rows pay_fmt (map pay_row (kept_payloads max b)))) [
                | inl bad ↦ absurd (cc (rw (ea, ed, ec, bad, serialize) at h))
                | inr (p, ep) ↦ record {
                  a = a;
                  d = d;
                  c = c;
                  p = p;
                  apps_eq = ea;
                  domains_eq = ed;
                  cidrs_eq = ec;
                  payloads_eq = ep;
                  layout =
                      assemble_lem _ _ _ _ now a d c p second.1.bytes blob
                        (rw (ea, ed, ec, ep, serialize) at h);
                }
              ]
        ]
      ]
    ]
