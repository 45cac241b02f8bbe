-- ===== src/Capture/Packet/Shape.antt =====
-- The headers of a packet agree with its bytes.
use mathlib.Core.Path.{subst}
use mathlib.Core.Option.{some-injective}
use ngfw_policy.Prelude.{
  ℕ, ◌+◌, ◌-◌, ◌*◌, ◌/◌, ◌%◌, ◌<◌, ◌≡◌, refl, sym, ◌∙◌, List, [], ◌∷◌, ◌++◌, some, length, drop,
  arith, Bool-cases, inl, inr, ltb, ◌&&◌,
}
use ngfw_policy.Sigdb.Struct.{slice}
use ngfw_policy.Capture.Bytes.{be16, be32, be16-some, be32-some, >>=_some}
use ngfw_policy.Capture.Checksum.{word_sum, ip_checksum, ip_checksum-sum, ip_checksum_lt}
use ngfw_policy.Capture.Packet.{
  Address, as_bytes, tcp_segment, ip_no_ck, framed, tcp_packet, ethernet,
}

abbrev pub bytes_of : Address → List ℕ
bytes_of ip = ip.a ∷ ip.b ∷ ip.c ∷ ip.d ∷ []

as_bytes-some : (ip : Address) {l : List ℕ} → as_bytes ip ≡ some l → l ≡ bytes_of ip
unfolding as_bytes
as_bytes-some ip h =
    elim (Bool-cases (ltb ip.a 256 && (ltb ip.b 256 && (ltb ip.c 256 && ltb ip.d 256)))) [
      | inl fits ↦ cc (rw fits at h)
      | inr large ↦ absurd (cc (rw large at h))
    ]

-- The parts of the IP header before and behind its checksum.
abbrev before : ℕ → List ℕ
before n = 0x45 ∷ 0 ∷ (n / 256) ∷ (n % 256) ∷ 0x12 ∷ 0x34 ∷ 0x40 ∷ 0x00 ∷ 64 ∷ 6 ∷ []

abbrev behind : Address → Address → List ℕ
behind src dst = bytes_of src ++ bytes_of dst

abbrev checksum_of : ℕ → Address → Address → ℕ
checksum_of n src dst = ip_checksum (before n ++ (0 ∷ 0 ∷ behind src dst))

ip_no_ck-some :
    (src dst : Address) (n : ℕ) {ip : List ℕ}
    → ip_no_ck src dst n ≡ some ip
    → (n < 65536) × (ip ≡ before n ++ (0 ∷ 0 ∷ behind src dst))
unfolding ip_no_ck
ip_no_ck-some src dst n h =
    let (t, e1, h1) = >>=_some (be16 n) _ h in
    let (s, e2, h2) = >>=_some (as_bytes src) _ h1 in
    let (d, e3, h3) = >>=_some (as_bytes dst) _ h2 in
    let (small, n1) = be16-some n e1 in
    let n2 = as_bytes-some src e2 in
    let n3 = as_bytes-some dst e3 in (small, sym (some-injective _ _ h3) ∙ rw (n1, n2, n3) refl)

-- The frame of a segment, written out.
framed-some :
    (src dst : Address) (tcp : List ℕ) {pkt : List ℕ}
    → framed src dst tcp ≡ some pkt
    → let n = 20 + length tcp in
      let ck = checksum_of n src dst in
      (n < 65536)
      × (pkt ≡ ethernet ++ ((before n ++ ((ck / 256) ∷ (ck % 256) ∷ behind src dst)) ++ tcp))
unfolding framed
framed-some src dst tcp h =
    let (ip, e1, h1) = >>=_some (ip_no_ck src dst (20 + length tcp)) _ h in
    let (ck, e2, h2) = >>=_some (be16 (ip_checksum ip)) _ h1 in
    let (small, n1) = ip_no_ck-some src dst (20 + length tcp) e1 in
    let (_, n2) = be16-some (ip_checksum ip) e2 in
    (small, sym (some-injective _ _ h2) ∙ rw (n2, n1) refl)

tcp_segment-some :
    (sport dport seq : ℕ) (payload : List ℕ) {tcp : List ℕ}
    → tcp_segment sport dport seq payload ≡ some tcp
    → (length tcp ≡ 20 + length payload) × (drop 20 tcp ≡ payload)
unfolding tcp_segment
tcp_segment-some sport dport seq payload h =
    let (s, e1, h1) = >>=_some (be16 sport) _ h in
    let (d, e2, h2) = >>=_some (be16 dport) _ h1 in
    let (q, e3, h3) = >>=_some (be32 seq) _ h2 in
    let n1 = (be16-some sport e1).1 in
    let n2 = (be16-some dport e2).1 in
    let n3 = (be32-some seq e3).1 in
    subst (λ (t : List ℕ). (length t ≡ 20 + length payload) × (drop 20 t ≡ payload))
      (some-injective _ _ h3) (rw (n1, n2, n3) (omega arith, refl))

-- The two bytes of a number, high byte first.
abbrev pub be_value : List ℕ → ℕ
be_value [] = 0
be_value (a ∷ []) = a
be_value (a ∷ b ∷ _) = a * 256 + b

-- The sum of bytes with weights that alternate between 256 and 1. A header verifies in one's
-- complement arithmetic if its 16-bit words, the checksum included, add up to a multiple of 65535
-- that is not 0; this does not use the program's own checksum.
unfoldable pub weighted_sum : ℕ → List ℕ → ℕ
weighted_sum w [] = 0
weighted_sum w (x ∷ xs) = w * x + weighted_sum (257 - w) xs

-- Where `tcp_packet` does not raise, the packet has 54 bytes of headers before its payload, the
-- length field of the IP header counts all bytes behind the Ethernet header, the IP header holds the
-- two addresses, and its words add up to a positive multiple of 65535, as its checksum is meant to
-- make them.
pub tcp_packet-headers :
    (src dst : Address) (sport dport seq : ℕ) (payload pkt : List ℕ)
    → tcp_packet src dst sport dport seq payload ≡ some pkt
    → (length pkt ≡ 54 + length payload)
      × (drop 54 pkt ≡ payload)
      × (be_value (slice pkt 16 2) + 14 ≡ length pkt)
      × (slice pkt 26 4 ≡ bytes_of src)
      × (slice pkt 30 4 ≡ bytes_of dst)
      × (0 < weighted_sum 256 (slice pkt 14 20))
      × (weighted_sum 256 (slice pkt 14 20) % 65535 ≡ 0)
unfolding tcp_packet weighted_sum word_sum
tcp_packet-headers src dst sport dport seq payload pkt h =
    let (tcp, e1, h1) = >>=_some (tcp_segment sport dport seq payload) _ h in
    let (len, rest) = tcp_segment-some sport dport seq payload e1 in
    let (small, whole) = framed-some src dst tcp h1 in
    rw whole (
      omega (arith, len),
      rest,
      omega (arith, len),
      refl,
      refl,
      omega arith,
      omega (
        arith,
        ip_checksum-sum (before (20 + length tcp) ++ (0 ∷ 0 ∷ behind src dst)),
        ip_checksum_lt (before (20 + length tcp) ++ (0 ∷ 0 ∷ behind src dst)),
      ),
    )
