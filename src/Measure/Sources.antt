-- ===== src/Measure/Sources.antt =====
-- The extractors of tools/measure_corpus.py. A tree that is not vendored is `none`; the matches of
-- the regular expressions are given in their order, and files as their lines.
use ngfw_policy.Prelude.{
  ℕ, ◌+◌, Bool, not, ◌||◌, List, [], ◌∷◌, map, Option, none, some, Text, codes, strip, is_space,
  is_nil, Dict, add, select, length, drop, list_eq, nat_eq, ◌==◌,
}
use ngfw_policy.Sigc.Load.Netify.{is_prefix}
use ngfw_policy.Sigc.Load.OpenAppId.{columns, odp_app_names, named}
use ngfw_policy.Measure.Sets.{set_of, union, minus, inter}
use ngfw_policy.Measure.Normalize.{normalize}

-- A value of a report.
pub data Stat : Type 0 where
  amount : ℕ → Stat
  note : Text → Stat

-- What an extractor gives: key_set, and its statistics.
abbrev pub Measured : Type 0
Measured = List Text × Dict Text Stat

abbrev pub not_vendored : Measured
not_vendored = ([], (codes "error", note (codes "not vendored")) ∷ [])

-- `{normalize(n) for n in names}`
abbrev pub key_set : List Text → List Text
key_set names = set_of (map normalize names)

-- `n.startswith(("FREE_", "UNKNOWN", "MAX_SUPPORTED", "NUM_"))`
abbrev is_reserved : Text → Bool
is_reserved n =
    is_prefix (codes "FREE_") n
    || (is_prefix (codes "UNKNOWN") n
        || (is_prefix (codes "MAX_SUPPORTED") n || is_prefix (codes "NUM_") n))

-- `PROTOCOLISH`
abbrev protocolish : List Text
protocolish =
    codes "TLS"
    ∷ codes "HTTP"
    ∷ codes "DNS"
    ∷ codes "QUIC"
    ∷ codes "TCP"
    ∷ codes "UDP"
    ∷ codes "ICMP"
    ∷ codes "ICMPV6"
    ∷ codes "IP_"
    ∷ codes "SSH"
    ∷ codes "FTP_CONTROL"
    ∷ codes "FTP_DATA"
    ∷ codes "SMTP"
    ∷ codes "IMAP"
    ∷ codes "POP3"
    ∷ codes "NTP"
    ∷ codes "DHCP"
    ∷ codes "DHCPV6"
    ∷ codes "SNMP"
    ∷ codes "BGP"
    ∷ codes "OSPF"
    ∷ codes "VRRP"
    ∷ codes "IGMP"
    ∷ codes "SCTP"
    ∷ codes "GRE"
    ∷ codes "IPSEC"
    ∷ codes "L2TP"
    ∷ codes "PPTP"
    ∷ codes "RTP"
    ∷ codes "RTCP"
    ∷ codes "RTSP"
    ∷ codes "SIP"
    ∷ codes "STUN"
    ∷ codes "MDNS"
    ∷ codes "LLMNR"
    ∷ codes "NETBIOS"
    ∷ codes "SMBV1"
    ∷ codes "SMBV23"
    ∷ codes "NFS"
    ∷ codes "LDAP"
    ∷ codes "KERBEROS"
    ∷ codes "RADIUS"
    ∷ codes "SYSLOG"
    ∷ codes "TFTP"
    ∷ codes "TELNET"
    ∷ codes "MODBUS"
    ∷ codes "DNP3"
    ∷ codes "S7COMM"
    ∷ codes "MQTT"
    ∷ codes "COAP"
    ∷ codes "AMQP"
    ∷ codes "TOR"
    ∷ []

-- `extract_ndpi`, with the number of its dissector files
unfoldable pub extract_ndpi : Option (List Text) → ℕ → Measured
unfolding normalize is_prefix select union minus inter
extract_ndpi none dissectors = not_vendored
extract_ndpi (some ids) dissectors =
    let names : List Text = set_of (select (λ n. not (is_reserved n)) ids) in
    let apps : List Text = minus names protocolish in
    (
      key_set apps,
      (codes "protocol_ids_total", amount (length ids))
          ∷ (codes "named", amount (length names))
          ∷ (codes "protocol_like", amount (length (inter names protocolish)))
          ∷ (codes "app_like", amount (length apps))
          ∷ (codes "dissector_files", amount dissectors)
          ∷ [],
    )

-- A row of appMapping.data: its name, and whether a flag is set.
abbrev is_flag : Text → Bool
is_flag c = let s : Text = strip is_space c in not (s == codes "0" || is_nil s)

unfoldable pub mapping_row : List Text → Option (Text × Bool)
unfolding strip
mapping_row (c0 ∷ c1 ∷ c2 ∷ c3 ∷ c4 ∷ c5 ∷ more) =
    some (strip is_space c1, is_flag c2 || (is_flag c3 || is_flag c4))
mapping_row _ = none

-- The rows with at least six columns.
unfoldable pub mapping_rows : List Text → List (Text × Bool)
unfolding mapping_row columns
mapping_rows [] = []
mapping_rows (line ∷ lines) =
    let rest = mapping_rows lines in
    elim (mapping_row (columns line)) [ none ↦ rest | some row ↦ row ∷ rest ]

-- A Lua file: its detection name, and the application ids of its host and URL patterns.
pub record LuaFile : Type 0 where
  pub detection_name : Option Text
  pub ssl_hits : List ℕ
  pub url_hits : List ℕ

unfoldable pub add_hits : Dict ℕ Text → List ℕ → List Text → List Text
unfolding named add
add_hits names [] backed = backed
add_hits names (id ∷ ids) backed =
    add_hits names ids (elim (named names id) [ none ↦ backed | some nm ↦ add nm backed ])

unfoldable pub scan_lua : Dict ℕ Text → List LuaFile → List Text × List Text → List Text × List Text
unfolding add_hits add strip
scan_lua names [] found = found
scan_lua names (f ∷ files) (detectors, backed) = scan_lua names files (
  elim f.detection_name [ none ↦ detectors | some n ↦ add (strip is_space n) detectors ],
  add_hits names f.url_hits (add_hits names f.ssl_hits backed),
)

-- `extract_openappid` behind the names of the applications.
unfoldable pub measure_openappid : Dict ℕ Text → List Text → List LuaFile → Measured
unfolding scan_lua mapping_rows normalize union select
measure_openappid names lines files =
    let (lua, backed) = scan_lua names files ([], []) in
    let detectors : List Text = union lua backed in
    let rows : List (Text × Bool) = mapping_rows lines in
    (
      key_set detectors,
      (codes "lua_files", amount (length files))
          ∷ (codes "named_lua_detectors", amount (length lua))
          ∷ (codes "host_pattern_backed", amount (length backed))
          ∷ (codes "detectable_total", amount (length detectors))
          ∷ (codes "appmapping_rows", amount (length rows))
          ∷ (codes "appmapping_flagged", amount (length (select (λ r. r.1) rows)))
          ∷ (codes "registry_names", amount (length (set_of (map (λ r. r.0) rows))))
          ∷ (codes "claimed", amount 2600)
          ∷ [],
    )

-- `extract_openappid` on the lines of appMapping.data, if there are any, and the Lua files, with
-- `str.isdigit` and `int`; `none` is the ValueError of `int`
unfoldable pub extract_openappid :
    (Text → Bool) → (Text → Option ℕ) → Option (List Text × List LuaFile) → Option Measured
unfolding measure_openappid odp_app_names
extract_openappid is_digits int_of none = some not_vendored
extract_openappid is_digits int_of (some (lines, files)) =
    elim (odp_app_names is_digits int_of lines) [
      | none ↦ none
      | some names ↦ some (measure_openappid names lines files)
    ]

-- `extract_odp_taxonomy`
unfoldable pub extract_odp_taxonomy : Option (List Text) → Measured
unfolding mapping_rows normalize union select
extract_odp_taxonomy none = not_vendored
extract_odp_taxonomy (some lines) =
    let rows : List (Text × Bool) = mapping_rows lines in
    let flagged : List Text = set_of (map (λ r. r.0) (select (λ r. r.1) rows)) in
    (
      key_set flagged,
      (codes "registry_names", amount (length (set_of (map (λ r. r.0) rows))))
          ∷ (codes "flagged_names", amount (length flagged))
          ∷ (codes "note", note (codes "taxonomy only - no detector; derivation targets"))
          ∷ [],
    )

-- `extract_mmt_dpi`
unfoldable pub extract_mmt_dpi : Option (List Text) → Measured
unfolding normalize union
extract_mmt_dpi none = not_vendored
extract_mmt_dpi (some protos) =
    (key_set protos, (codes "protocol_defines", amount (length protos)) ∷ [])

-- `extract_libprotoident`, from the stems of the modules in lib/tcp and lib/udp
unfoldable pub extract_libprotoident : Option (List Text × List Text) → Measured
unfolding normalize union
extract_libprotoident none = not_vendored
extract_libprotoident (some (tcp, udp)) =
    let names : List Text = union (set_of (map (drop 4) tcp)) (set_of (map (drop 4) udp)) in
    (
      key_set names,
      (codes "modules_tcp", amount (length tcp))
          ∷ (codes "modules_udp", amount (length udp))
          ∷ (codes "modules_total", amount (length tcp + length udp))
          ∷ (codes "distinct_after_transport_merge", amount (length names))
          ∷ [],
    )
