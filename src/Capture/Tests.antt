-- ===== src/Capture/Tests.antt =====
-- Packets on small inputs, and the theorems at such inputs.
use ngfw_policy.Prelude.{
  ℕ, zero, suc, ◌+◌, ◌/◌, ◌%◌, ◌<◌, ◌≡◌, ◌↔◌, refl, ap, List, [], ◌∷◌, ◌++◌, none, some, codes,
  length, drop, arith,
}
use ngfw_policy.Sigdb.Struct.{slice}
use ngfw_policy.Capture.Checksum.{ip_checksum, ip_checksum-verifies}
use ngfw_policy.Capture.Hello.{client_hello}
use ngfw_policy.Capture.Hello.Parse.{server_name}
use ngfw_policy.Capture.Hello.RoundTrip.{server_name-client_hello}
use ngfw_policy.Capture.Packet.{Address, tcp_packet, write_capture}
use ngfw_policy.Capture.Packet.Shape.{bytes_of, weighted_sum, be_value, tcp_packet-headers}
use ngfw_policy.Capture.Packet.Limit.{write_capture-limit}

-- The example of RFC 1071.
checksum_of_words :
    ip_checksum (0x00 ∷ 0x01 ∷ 0xf2 ∷ 0x03 ∷ 0xf4 ∷ 0xf5 ∷ 0xf6 ∷ 0xf7 ∷ []) ≡ 0x220d
unfolding ip_checksum
checksum_of_words = refl

ip_checksum-verifies_example :
    let ck = ip_checksum ((0x45 ∷ 0 ∷ []) ++ (0 ∷ 0 ∷ 7 ∷ [])) in
    ip_checksum ((0x45 ∷ 0 ∷ []) ++ ((ck / 256) ∷ (ck % 256) ∷ 7 ∷ [])) ≡ 0
ip_checksum-verifies_example = ip_checksum-verifies 1 (0x45 ∷ 0 ∷ []) (7 ∷ []) refl

server_name-client_hello_example :
    (((packet : List ℕ) × (client_hello (codes "zoom.us") ≡ some packet))
      ↔ (length (codes "zoom.us") < 65462))
    × ((packet : List ℕ)
        → client_hello (codes "zoom.us") ≡ some packet
        → server_name packet ≡ some (codes "zoom.us"))
server_name-client_hello_example = server_name-client_hello (codes "zoom.us")

abbrev client : Address
client = record { a = 10; b = 0; c = 0; d = 1 }

abbrev server : Address
server = record { a = 93; b = 184; c = 216; d = 34 }

abbrev pong : List ℕ
pong = 7 ∷ 9 ∷ []

abbrev ping : List ℕ
ping =
    2 ∷ 0 ∷ 0 ∷ 0 ∷ 0 ∷ 1 ∷ 2 ∷ 0 ∷ 0 ∷ 0 ∷ 0 ∷ 2 ∷ 8 ∷ 0 ∷ 0x45 ∷ 0 ∷ 0 ∷ 42 ∷ 0x12 ∷ 0x34 ∷ 0x40
    ∷ 0 ∷ 64 ∷ 6 ∷ 232 ∷ 190 ∷ 10 ∷ 0 ∷ 0 ∷ 1 ∷ 93 ∷ 184 ∷ 216 ∷ 34 ∷ 156 ∷ 64 ∷ 1 ∷ 187 ∷ 0 ∷ 0 ∷ 3
    ∷ 232 ∷ 0 ∷ 0 ∷ 0 ∷ 1 ∷ 80 ∷ 24 ∷ 255 ∷ 255 ∷ 0 ∷ 0 ∷ 0 ∷ 0 ∷ 7 ∷ 9 ∷ []

ping_packet : tcp_packet client server 40000 443 1000 pong ≡ some ping
unfolding tcp_packet
ping_packet = refl

tcp_packet-headers_example :
    (length ping ≡ 54 + length pong)
    × (drop 54 ping ≡ pong)
    × (be_value (slice ping 16 2) + 14 ≡ length ping)
    × (slice ping 26 4 ≡ bytes_of client)
    × (slice ping 30 4 ≡ bytes_of server)
    × (0 < weighted_sum 256 (slice ping 14 20))
    × (weighted_sum 256 (slice ping 14 20) % 65535 ≡ 0)
tcp_packet-headers_example = tcp_packet-headers client server 40000 443 1000 pong ping ping_packet

-- A flow without a ClientHello, many times.
flows : ℕ → List (List ℕ × Address)
flows zero = []
flows (suc n) = ([], server) ∷ flows n

length-flows : (n : ℕ) → length (flows n) ≡ n
unfolding flows
length-flows zero = refl
length-flows (suc n) = ap suc (length-flows n)

write_capture-limit_example : write_capture (flows 25537) ≡ none
write_capture-limit_example = write_capture-limit (flows 25537) (omega (arith, length-flows 25537))
