-- ===== src/Capture/Hello.antt =====
-- `client_hello` of tools/mkpcap.py. The hostname is given as its encoded bytes.
pub mod Parse
pub mod RoundTrip
use ngfw_policy.Prelude.{
  ℕ, zero, suc, ◌+◌, List, [], ◌∷◌, ◌++◌, Option, some, Text, codes, length, drop,
}
use ngfw_policy.Sigdb.Struct.{◌+?◌}
use ngfw_policy.Capture.Bytes.{be32, prefixed, ◌>>=◌}

-- `bytes(range(n))` from a start.
abbrev pub count_up : ℕ → ℕ → List ℕ
count_up zero from = []
count_up (suc n) from = from ∷ count_up n (from + 1)

-- `b"\\x00\\x0c\\x02h2\\x08http/1.1"`
abbrev pub alpn_body : List ℕ
alpn_body = 0 ∷ 12 ∷ 2 ∷ codes "h2" ++ 8 ∷ codes "http/1.1"

-- Version, random, session id, cipher suites and compression methods.
abbrev pub hello_fixed : List ℕ
hello_fixed = 3 ∷ 3 ∷ count_up 32 0 ++ 0 ∷ 0 ∷ 2 ∷ 0x13 ∷ 0x01 ∷ 0x01 ∷ 0x00 ∷ []

-- The extension of the server name.
unfoldable pub sni_extension : List ℕ → Option (List ℕ)
unfolding prefixed
sni_extension host = prefixed host >>= λ name.
    prefixed (0 ∷ name) >>= λ sni_list. prefixed sni_list >>= λ ext. some (0 ∷ 0 ∷ ext)

-- The second extension, so that a parser has to walk the list.
unfoldable pub alpn_extension : Option (List ℕ)
unfolding prefixed
alpn_extension = prefixed alpn_body >>= λ ext. some (0x00 ∷ 0x10 ∷ ext)

unfoldable pub client_hello : List ℕ → Option (List ℕ)
unfolding sni_extension alpn_extension prefixed be32
client_hello host = (sni_extension host +? alpn_extension) >>= λ exts.
    prefixed exts >>= λ sized_exts.
    let body : List ℕ = hello_fixed ++ sized_exts in
    be32 (length body) >>= λ size.
    prefixed (1 ∷ drop 1 size ++ body) >>= λ hs. some (0x16 ∷ 0x03 ∷ 0x01 ∷ hs)
