-- ===== src/Capture/Hello/RoundTrip.antt =====
-- The server name of a ClientHello that `client_hello` writes, and when it writes one.
use mathlib.Core.Path.{subst}
use mathlib.Core.Option.{some-injective}
use ngfw_policy.Prelude.{
  ℕ, ◌+◌, ◌/◌, ◌%◌, ap, drop, ◌<◌, ◌≡◌, ◌↔◌, refl, sym, ◌∙◌, List, [], ◌∷◌, ◌++◌, some, length,
  arith, ltb, Bool-cases, inl, inr, length-append,
}
use ngfw_policy.Sigdb.Struct.{◌+?◌}
use ngfw_policy.Sigdb.Struct.RoundTrip.{+?_some}
use ngfw_policy.Capture.Bytes.{sized, prefixed, prefixed_fits, prefixed-some, be32, >>=_some}
use ngfw_policy.Capture.Hello.{client_hello, sni_extension, alpn_extension, alpn_body, hello_fixed}
use ngfw_policy.Capture.Hello.Parse.{
  exts_of, body_of, handshake_of, record_of, length-exts_of, server_name, server_name-record_of,
}

alpn_extension_lem : alpn_extension ≡ some (0x00 ∷ 0x10 ∷ sized alpn_body)
unfolding alpn_extension
alpn_extension_lem = refl

be32_fits :
    (v : ℕ)
    → v < 65536
    → be32 v ≡ some ((v / 16777216) ∷ (v / 65536 % 256) ∷ (v / 256 % 256) ∷ (v % 256) ∷ [])
unfolding be32
be32_fits v h = ground arith

client_hello_fits :
    (host : List ℕ) → length host < 65462 → client_hello host ≡ some (record_of host)
unfolding client_hello sni_extension
client_hello_fits host h =
    rw
      (
        prefixed_fits host (omega arith),
        prefixed_fits (0 ∷ sized host) (omega arith),
        prefixed_fits (sized (0 ∷ sized host)) (omega arith),
        prefixed_fits (exts_of host) (omega (arith, length-exts_of host)),
        be32_fits (length (body_of host)) (omega (arith, length-exts_of host)),
        prefixed_fits (handshake_of host) (omega (arith, length-exts_of host)),
      )
      refl

sni_extension-length :
    (host : List ℕ) {ext : List ℕ} → sni_extension host ≡ some ext → length ext ≡ length host + 9
unfolding sni_extension
sni_extension-length host h =
    let (name, e1, h1) = >>=_some (prefixed host) _ h in
    let (list, e2, h2) = >>=_some (prefixed (0 ∷ name)) _ h1 in
    let (ext, e3, h3) = >>=_some (prefixed list) _ h2 in
    let n1 = ap length (prefixed-some host e1).1 in
    let n2 = ap length (prefixed-some (0 ∷ name) e2).1 in
    let n3 = ap length (prefixed-some list e3).1 in
    omega (arith, n1, n2, n3, ap length (some-injective _ _ h3))

be32-length : (v : ℕ) {size : List ℕ} → be32 v ≡ some size → length (drop 1 size) ≡ 3
unfolding be32
be32-length v h = elim (Bool-cases (ltb v 4294967296)) [
  | inl fits ↦
      subst (λ (s : List ℕ). length (drop 1 s) ≡ 3) (some-injective _ _ (rw fits at h)) refl
  | inr large ↦ absurd (cc (rw large at h))
]

client_hello_short :
    (host : List ℕ) {packet : List ℕ} → client_hello host ≡ some packet → length host < 65462
unfolding client_hello
client_hello_short host h =
    let (exts, e1, h1) = >>=_some (sni_extension host +? alpn_extension) _ h in
    let (sni, alpn, e_sni, e_alpn, joined) = +?_some (sni_extension host) alpn_extension e1 in
    let (sized_exts, e2, h2) = >>=_some (prefixed exts) _ h1 in
    let (size, e3, h3) = >>=_some (be32 (length (hello_fixed ++ sized_exts))) _ h2 in
    let (hs, e4, h4) = >>=_some (prefixed (1 ∷ drop 1 size ++ (hello_fixed ++ sized_exts))) _ h3 in
    omega (
      arith,
      sni_extension-length host e_sni,
      ap length (some-injective _ _ (sym alpn_extension_lem ∙ e_alpn)),
      ap length joined,
      length-append sni alpn,
      ap length (prefixed-some exts e2).1,
      be32-length (length (hello_fixed ++ sized_exts)) e3,
      length-append (drop 1 size) (hello_fixed ++ sized_exts),
      (prefixed-some (1 ∷ drop 1 size ++ (hello_fixed ++ sized_exts)) e4).0,
    )

-- A ClientHello is written exactly for a hostname of at most 65,461 bytes, and the reader of TLS
-- records finds that hostname in it.
pub server_name-client_hello :
    (host : List ℕ)
    → (((packet : List ℕ) × (client_hello host ≡ some packet)) ↔ (length host < 65462))
      × ((packet : List ℕ) → client_hello host ≡ some packet → server_name packet ≡ some host)
server_name-client_hello host = (
  (λ (packet, h). client_hello_short host h, λ h. (record_of host, client_hello_fits host h)),
  λ packet h.
      let short = client_hello_short host h in
      subst (λ (p : List ℕ). server_name p ≡ some host)
        (some-injective _ _ (sym (client_hello_fits host short) ∙ h))
        (server_name-record_of host (omega (arith, short))),
)
