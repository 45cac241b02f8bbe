-- ===== src/Capture/Packet/Limit.antt =====
-- How many entries a capture can have.
use ngfw_policy.Prelude.{
  ℕ, ◌+◌, ◌≤◌, ◌<◌, ◌≡◌, List, [], ◌∷◌, none, some, length, arith, Option-cases, inl, inr,
}
use ngfw_policy.Sigdb.Struct.RoundTrip.{+?_some}
use ngfw_policy.Capture.Bytes.{be16, be16-some, ◌>>=◌, >>=_some}
use ngfw_policy.Capture.Packet.{
  Address, tcp_segment, tcp_packet, flow_payload, entry_packet, record_for, write_packets,
  write_capture,
}

-- A packet has a source port of 16 bits.
tcp_segment-port :
    (sport dport seq : ℕ) (payload : List ℕ) {tcp : List ℕ}
    → tcp_segment sport dport seq payload ≡ some tcp
    → sport < 65536
unfolding tcp_segment
tcp_segment-port sport dport seq payload h =
    let (s, e, _) = >>=_some (be16 sport) _ h in (be16-some sport e).0

entry_packet-port :
    (i : ℕ) (e : List ℕ × Address) {pkt : List ℕ} → entry_packet i e ≡ some pkt → 40000 + i < 65536
unfolding entry_packet tcp_packet
entry_packet-port i (host, dst) h =
    let (payload, _, h1) = >>=_some (flow_payload host) _ h in
    let (tcp, e2, _) = >>=_some (tcp_segment (40000 + i) 443 1000 payload) _ h1 in
    tcp_segment-port (40000 + i) 443 1000 payload e2

write_packets-short :
    (i : ℕ) (entries : List (List ℕ × Address)) {b : List ℕ}
    → write_packets i entries ≡ some b
    → i ≤ 25536
    → i + length entries ≤ 25536
unfolding write_packets
write_packets-short i [] h small = omega arith
write_packets-short i (e ∷ es) h small =
    let (x, y, e_head, e_tail, _) =
      +?_some (entry_packet i e >>= record_for i) (write_packets (i + 1) es) h in
    let (pkt, e_pkt, _) = >>=_some (entry_packet i e) _ e_head in
    let port = entry_packet-port i e e_pkt in
    omega (arith, write_packets-short (i + 1) es e_tail (omega (arith, port)))

-- No capture has more than 25,536 entries: the source port of a later one would not fit into 16
-- bits, `struct.pack` raises, and no file is written to its end.
pub write_capture-limit :
    (entries : List (List ℕ × Address)) → 25536 < length entries → write_capture entries ≡ none
unfolding write_capture
write_capture-limit entries many = elim (Option-cases (write_packets 0 entries)) [
  | inl raised ↦ rw raised
  | inr (b, e) ↦ absurd (omega (arith, write_packets-short 0 entries e (omega arith)))
]
