-- ===== src/Capture/Packet.antt =====
-- `tcp_packet` and the loop of `main` of tools/mkpcap.py, and `packet` of tools/mkproto_pcap.py. An
-- address is given as the four numbers of its dotted form.
pub mod Shape
pub mod Limit
use ngfw_policy.Prelude.{
  ℕ, zero, suc, ◌+◌, ◌/◌, ◌%◌, Bool, ◌&&◌, List, [], ◌∷◌, ◌++◌, Option, none, some, ltb, is_nil,
  length, take, drop, if◌then◌else◌,
}
use ngfw_policy.Sigdb.Struct.{Field, u16, u32, num, pack, ◌+?◌}
use ngfw_policy.Capture.Bytes.{be16, be32, ◌>>=◌}
use ngfw_policy.Capture.Checksum.{ip_checksum}
use ngfw_policy.Capture.Hello.{client_hello}

pub record Address : Type 0 where
  pub a : ℕ
  pub b : ℕ
  pub c : ℕ
  pub d : ℕ

-- `bytes(...)` of the four numbers, a `ValueError` where one is no byte
unfoldable pub as_bytes : Address → Option (List ℕ)
as_bytes ip =
    if ltb ip.a 256 && (ltb ip.b 256 && (ltb ip.c 256 && ltb ip.d 256))
    then some (ip.a ∷ ip.b ∷ ip.c ∷ ip.d ∷ [])
    else none

-- `struct.pack(">HHIIBBHHH", sport, dport, seq, 1, 5 << 4, 0x18, 65535, 0, 0) + payload`
unfoldable pub tcp_segment : ℕ → ℕ → ℕ → List ℕ → Option (List ℕ)
unfolding be16 be32
tcp_segment sport dport seq payload = be16 sport >>= λ s. be16 dport >>= λ d. be32 seq >>= λ q.
    some (s ++ (d ++ (q ++ (0 ∷ 0 ∷ 0 ∷ 1 ∷ 80 ∷ 0x18 ∷ 255 ∷ 255 ∷ 0 ∷ 0 ∷ 0 ∷ 0 ∷ payload))))

-- The IP header whose checksum is still zero.
unfoldable pub ip_no_ck : Address → Address → ℕ → Option (List ℕ)
unfolding be16 as_bytes
ip_no_ck src dst total_len = be16 total_len >>= λ t. as_bytes src >>= λ s. as_bytes dst >>= λ d.
    some (0x45 ∷ 0 ∷ t ++ (0x12 ∷ 0x34 ∷ 0x40 ∷ 0x00 ∷ 64 ∷ 6 ∷ 0 ∷ 0 ∷ s ++ d))

abbrev pub ethernet : List ℕ
ethernet = 2 ∷ 0 ∷ 0 ∷ 0 ∷ 0 ∷ 1 ∷ 2 ∷ 0 ∷ 0 ∷ 0 ∷ 0 ∷ 2 ∷ 8 ∷ 0 ∷ []

-- The three headers with the checksum filled in.
unfoldable pub framed : Address → Address → List ℕ → Option (List ℕ)
unfolding ip_no_ck be16 ip_checksum
framed src dst tcp = ip_no_ck src dst (20 + length tcp) >>= λ ip.
    be16 (ip_checksum ip) >>= λ ck. some (ethernet ++ ((take 10 ip ++ (ck ++ drop 12 ip)) ++ tcp))

-- `tcp_packet`
unfoldable pub tcp_packet : Address → Address → ℕ → ℕ → ℕ → List ℕ → Option (List ℕ)
unfolding tcp_segment framed
tcp_packet src dst sport dport seq payload = tcp_segment sport dport seq payload >>= framed src dst

-- `packet` of mkproto_pcap.py
unfoldable pub magic_packet : ℕ → List ℕ → Option (List ℕ)
unfolding tcp_segment framed
magic_packet i payload =
    tcp_segment (40000 + i) 21 1 payload
    >>= framed (record { a = 10; b = 0; c = 0; d = i + 1 })
        (record { a = 93; b = 184; c = 216; d = 34 })

-- `<IIII`, and the header of the file, whose signed field is zero
abbrev pub record_header : List Field
record_header = u32 ∷ u32 ∷ u32 ∷ u32 ∷ []

abbrev pub file_header : Option (List ℕ)
file_header =
    pack (u32 ∷ u16 ∷ u16 ∷ u32 ∷ u32 ∷ u32 ∷ u32 ∷ [])
      (num 0xA1B2C3D4 ∷ num 2 ∷ num 4 ∷ num 0 ∷ num 0 ∷ num 65535 ∷ num 1 ∷ [])

-- The payload of an entry: an empty host gives a flow without a ClientHello.
unfoldable pub flow_payload : List ℕ → Option (List ℕ)
unfolding client_hello
flow_payload host = if is_nil host then some [] else client_hello host

-- The packet of the entry at a position.
unfoldable pub entry_packet : ℕ → List ℕ × Address → Option (List ℕ)
unfolding flow_payload tcp_packet
entry_packet i (host, dst) =
    flow_payload host
    >>= tcp_packet (record { a = 10; b = 0; c = i / 250; d = i % 250 + 1 }) dst (40000 + i) 443 1000

-- A record of the file.
unfoldable pub record_for : ℕ → List ℕ → Option (List ℕ)
unfolding pack
record_for i pkt =
    pack record_header (num (1700000000 + i) ∷ num 0 ∷ num (length pkt) ∷ num (length pkt) ∷ [])
    +? some pkt

-- `for i, (host, dst, _expect) in enumerate(entries)`
unfoldable pub write_packets : ℕ → List (List ℕ × Address) → Option (List ℕ)
unfolding entry_packet record_for
write_packets i [] = some []
write_packets i (e ∷ es) = (entry_packet i e >>= record_for i) +? write_packets (i + 1) es

-- The bytes that `main` writes; `none` where it raises.
unfoldable pub write_capture : List (List ℕ × Address) → Option (List ℕ)
unfolding write_packets pack
write_capture entries = file_header +? write_packets 0 entries
