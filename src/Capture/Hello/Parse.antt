-- ===== src/Capture/Hello/Parse.antt =====
-- A reader of the server name in a TLS record, after RFC 5246 (records, handshakes, extensions) and
-- RFC 6066 (server names). It is written apart from the writer and shares nothing with it.
use ngfw_policy.Prelude.{
  ℕ, zero, suc, ◌+◌, ◌*◌, ◌/◌, ◌%◌, ◌≡◌, refl, List, [], ◌∷◌, ◌++◌, Option, none, some, length,
  take, drop, leb, eqb, if◌then◌else◌, arith, ◌&&◌, take-append_left, drop-append_left,
  length-append, le→leb, sym, ap, ◌∙◌, ◌<◌,
}
use mathlib.Core.List.{append-nil}
use ngfw_policy.Capture.Bytes.{sized, ◌>>=◌}
use ngfw_policy.Capture.Hello.{hello_fixed, count_up, alpn_body}

-- A vector whose length stands in one, two or three bytes before it, and what follows.
unfoldable pub cut_at : ℕ → List ℕ → Option (List ℕ × List ℕ)
cut_at n l = if leb n (length l) then some (take n l, drop n l) else none

unfoldable pub vector8 : List ℕ → Option (List ℕ × List ℕ)
unfolding cut_at
vector8 [] = none
vector8 (a ∷ l) = cut_at a l

unfoldable pub vector16 : List ℕ → Option (List ℕ × List ℕ)
unfolding cut_at
vector16 (a ∷ b ∷ l) = cut_at (a * 256 + b) l
vector16 _ = none

unfoldable pub vector24 : List ℕ → Option (List ℕ × List ℕ)
unfolding cut_at
vector24 (a ∷ b ∷ c ∷ l) = cut_at (a * 65536 + b * 256 + c) l
vector24 _ = none

first_name : List ℕ → Option (List ℕ)
unfolding vector16
first_name [] = none
first_name (kind ∷ l) = vector16 l >>= λ (name, _). if eqb kind 0 then some name else none

-- The first name of a server name list, if it is a host name.
host_name : List ℕ → Option (List ℕ)
unfolding vector16 first_name
host_name l = vector16 l >>= λ (names, _). first_name names

-- The server name extension among the extensions.
find_name : ℕ → List ℕ → Option (List ℕ)
unfolding host_name vector16
find_name zero l = none
find_name (suc fuel) (a ∷ b ∷ l) = vector16 l >>= λ (ext, l').
    let later = find_name fuel l' in if eqb a 0 && eqb b 0 then host_name ext else later
find_name (suc fuel) _ = none

-- Version, random, session id, cipher suites, compression methods, extensions.
in_hello : List ℕ → Option (List ℕ)
unfolding cut_at vector8 vector16 find_name
in_hello l = cut_at 34 l >>= λ (_, l1). vector8 l1 >>= λ (_, l2). vector16 l2 >>= λ (_, l3).
    vector8 l3 >>= λ (_, l4). vector16 l4 >>= λ (exts, _). find_name (length exts) exts

-- A handshake message of type 1.
in_handshake : List ℕ → Option (List ℕ)
unfolding vector24 in_hello
in_handshake [] = none
in_handshake (kind ∷ l) = vector24 l >>= λ (body, _). if eqb kind 1 then in_hello body else none

-- A record of type 22; its version is not looked at.
unfoldable pub server_name : List ℕ → Option (List ℕ)
unfolding vector16 in_handshake
server_name (kind ∷ _ ∷ _ ∷ l) =
    vector16 l >>= λ (hs, _). if eqb kind 22 then in_handshake hs else none
server_name _ = none

cut_lem : (x rest : List ℕ) → cut_at (length x) (x ++ rest) ≡ some (x, rest)
unfolding cut_at
cut_lem x rest =
    rw
      (
        le→leb (length x) (length (x ++ rest)) (omega (arith, length-append x rest)),
        take-append_left x rest,
        drop-append_left x rest,
      )
      refl

vector8_lem : (x rest : List ℕ) → vector8 (length x ∷ x ++ rest) ≡ some (x, rest)
unfolding vector8
vector8_lem x rest = cut_lem x rest

-- A vector is read back from before whatever follows it.
vector16_lem : (x rest : List ℕ) → vector16 (sized x ++ rest) ≡ some (x, rest)
unfolding vector16
vector16_lem x rest =
    let n : length x / 256 * 256 + length x % 256 ≡ length x = omega arith in
    rw (n, cut_lem x rest) refl

vector16_last : (x : List ℕ) → vector16 (sized x) ≡ some (x, [])
vector16_last x = ap vector16 (sym (append-nil (sized x))) ∙ vector16_lem x []

vector24_last :
    (x : List ℕ)
    → length x < 16777216
    → vector24 ((length x / 65536 % 256) ∷ (length x / 256 % 256) ∷ (length x % 256) ∷ x)
      ≡ some (x, [])
unfolding vector24
vector24_last x h =
    let n : length x / 65536 % 256 * 65536 + length x / 256 % 256 * 256 + length x % 256
        ≡ length x =
      omega arith in
    rw n (ap (cut_at (length x)) (sym (append-nil x)) ∙ cut_lem x [])

-- What stands on the way to the extensions is passed over.
in_hello_lem : (exts : List ℕ) → in_hello (hello_fixed ++ sized exts) ≡ find_name (length exts) exts
unfolding in_hello
in_hello_lem exts =
    rw
      (
        cut_lem (3 ∷ 3 ∷ count_up 32 0) (0 ∷ sized (0x13 ∷ 0x01 ∷ []) ++ (1 ∷ 0 ∷ sized exts)),
        vector8_lem [] (sized (0x13 ∷ 0x01 ∷ []) ++ (1 ∷ 0 ∷ sized exts)),
        vector16_lem (0x13 ∷ 0x01 ∷ []) (1 ∷ 0 ∷ sized exts),
        vector8_lem (0 ∷ []) (sized exts),
        vector16_last exts,
      )
      refl

find_name_lem :
    (fuel : ℕ) (host rest : List ℕ)
    → find_name (suc fuel) (0 ∷ 0 ∷ (sized (sized (0 ∷ sized host)) ++ rest)) ≡ some host
unfolding find_name host_name first_name
find_name_lem fuel host rest =
    rw
      (
        vector16_lem (sized (0 ∷ sized host)) rest,
        vector16_last (0 ∷ sized host),
        vector16_last host,
      )
      refl

-- The record of a host, whose extensions begin with its name.
abbrev pub exts_of : List ℕ → List ℕ
exts_of host = 0 ∷ 0 ∷ sized (sized (0 ∷ sized host)) ++ (0x00 ∷ 0x10 ∷ sized alpn_body)

abbrev pub body_of : List ℕ → List ℕ
body_of host = hello_fixed ++ sized (exts_of host)

abbrev pub handshake_of : List ℕ → List ℕ
handshake_of host =
    let n = length (body_of host) in
    1 ∷ (n / 65536 % 256) ∷ (n / 256 % 256) ∷ (n % 256) ∷ body_of host

abbrev pub record_of : List ℕ → List ℕ
record_of host = 0x16 ∷ 0x03 ∷ 0x01 ∷ sized (handshake_of host)

pub length-exts_of : (host : List ℕ) → length (exts_of host) ≡ length host + 27
length-exts_of host =
    omega (arith, length-append (sized (sized (0 ∷ sized host))) (0x00 ∷ 0x10 ∷ sized alpn_body))

pub server_name-record_of :
    (host : List ℕ) → length host < 65536 → server_name (record_of host) ≡ some host
unfolding server_name in_handshake
server_name-record_of host h =
    rw
      (
        vector16_last (handshake_of host),
        vector24_last (body_of host) (omega (arith, length-exts_of host)),
        in_hello_lem (exts_of host),
      )
      (find_name_lem
        (length (sized (sized (0 ∷ sized host)) ++ (0x00 ∷ 0x10 ∷ sized alpn_body)) + 1) host
        (0x00 ∷ 0x10 ∷ sized alpn_body))
