-- ===== src/Crawler/Url/Tests.antt =====
-- Canonical URLs of small inputs.
use ngfw_policy.Prelude.{
  ◌<◌, ◌≡◌, refl, true, [], ◌∷◌, some, codes, every, eqb, length, list_beq, last_is, Text, strip,
  is_space, ◌==◌, list_eq, nat_eq, if◌then◌else◌,
}
use ngfw_policy.Crawler.Url.{no_port, some_port, Parsed, Canonical, canonicalize, canonicalize_url}
use ngfw_policy.Crawler.Url.Idempotent.{IsPath, IsReadable, reparse, canonicalize_idem}

abbrev advisory : Parsed
advisory = record {
  scheme = codes "HTTPS";
  hostname = some (codes "Example.org");
  port = some_port 443;
  path = codes "/a/";
  query = (codes "utm_source", codes "x") ∷ (codes "id", codes "7") ∷ [];
}

abbrev advisory_key : Canonical
advisory_key = record {
  scheme = codes "https";
  host = codes "example.org";
  port = no_port;
  path = codes "/a";
  query = (codes "id", codes "7") ∷ [];
}

canonicalize-advisory : canonicalize advisory ≡ some advisory_key
unfolding canonicalize list_beq last_is
canonicalize-advisory = refl

abbrev printed_key : Text
printed_key = codes "https://example.org/a?id=7"

-- A parser that knows two URLs, and a printer that knows one.
abbrev parse_two : Text → Parsed
parse_two url = if url == printed_key then reparse advisory_key else advisory

abbrev print_one : Canonical → Text
print_one c = printed_key

canonicalize_idem_example :
    (canonicalize_url parse_two print_one (codes " HTTPS://Example.org:443/a/?utm_source=x&id=7")
      ≡ some printed_key)
    × (IsPath advisory.path
        → IsReadable parse_two print_one advisory_key
        → canonicalize_url parse_two print_one printed_key ≡ some printed_key)
    × (1 < length advisory.path
        → every (λ x. eqb x b'/') advisory.path ≡ true
        → advisory_key.path ≡ [])
unfolding list_beq strip is_space
canonicalize_idem_example =
    canonicalize_idem parse_two print_one (codes " HTTPS://Example.org:443/a/?utm_source=x&id=7")
      advisory_key canonicalize-advisory

key-IsReadable : IsReadable parse_two print_one advisory_key
unfolding list_beq strip is_space
key-IsReadable = refl
