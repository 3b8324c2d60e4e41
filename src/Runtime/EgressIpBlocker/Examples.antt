-- ===== src/Runtime/EgressIpBlocker/Examples.antt =====
-- runtime/sandbox/egress-ip-blocker.ts: the theorems at concrete addresses, and tests.
use railfog.Prelude.{
  if◌then◌else◌, or_default, text_eq, arith, ◌≡◌, refl, Bool, true, false, Option, none, some, List,
  [], ◌∷◌, Text, codes,
}
use railfog.Runtime.Ipv4Address.{parse_ipv4}
use railfog.Runtime.Ipv4Address.Printing.{address, dotted, parse_ipv4-dotted}
use railfog.Runtime.EgressIpBlocker.Ranges.{is_ip_blocked-reserved}
use railfog.Runtime.EgressIpBlocker.Destinations.{validate_destination_safe, IsAnswer}
use railfog.Runtime.Ipv6Address.{parse_ipv6, hextet_digit}
use railfog.Runtime.EgressIpBlocker.{
  is_parsed_blocked, egress_ip_blocker, is_ip_blocked, EgressIpBlocker, strip_port_and_brackets,
  is_ipv4_blocked, is_ipv6_blocked, parse_ipv4_cidr, parse_ipv6_cidr, validate_destination,
  try_parse_ip, ParsedIp, validate_resolved,
}

abbrev blocks : Option EgressIpBlocker → Text → Option Bool
blocks none ip = none
blocks (some b) ip = some (is_ip_blocked b ip)

forms :
    (parse_ipv4 (codes "127.0.0.1") ≡ some 2130706433)
    × (parse_ipv4 (codes "0x7f.1") ≡ some 2130706433)
    × (parse_ipv4 (codes "017700000001") ≡ some 2130706433)
    × (parse_ipv4 (codes "1.2.3.256") ≡ none)
    × (parse_ipv4 (codes "08") ≡ none)
unfolding parse_ipv4
forms = (refl, refl, refl, refl, refl)

v6_forms :
    (parse_ipv6 (codes "::1") ≡ some 1)
    × (parse_ipv6 (codes "::ffff:1.2.3.4") ≡ some 281470698652420)
    × (parse_ipv6 (codes ":::") ≡ none)
    × (parse_ipv6 (codes "::") ≡ some 0)
    × (parse_ipv6 (codes "1:2:3:4:5:6:7") ≡ none)
unfolding parse_ipv6 parse_ipv4 hextet_digit
v6_forms = (refl, refl, refl, refl, refl)

strips :
    (strip_port_and_brackets (codes " [::1]:80 ") ≡ codes "::1")
    × (strip_port_and_brackets (codes "a.b:443") ≡ codes "a.b")
    × (strip_port_and_brackets (codes "::1") ≡ codes "::1")
unfolding strip_port_and_brackets
strips = (refl, refl, refl)

blocked_runs :
    (blocks (egress_ip_blocker []) (codes "169.254.169.254") ≡ some true)
    × (blocks (egress_ip_blocker []) (codes "8.8.8.8") ≡ some false)
    × (blocks (egress_ip_blocker (codes "8.8.0.0/16" ∷ [])) (codes "[::ffff:8.8.8.8]:80")
        ≡ some true)
    × (blocks (egress_ip_blocker []) (codes "2001:db8::1") ≡ some false)
unfolding parse_ipv6 parse_ipv4 hextet_digit strip_port_and_brackets is_parsed_blocked
    egress_ip_blocker is_ip_blocked is_ipv4_blocked is_ipv6_blocked parse_ipv4_cidr parse_ipv6_cidr
blocked_runs = (refl, refl, refl, refl)

abbrev no_blocker : EgressIpBlocker
no_blocker = record { ipv4_blocked_ranges = []; ipv6_blocked_ranges = [] }

abbrev default_blocker : EgressIpBlocker
default_blocker = or_default (egress_ip_blocker []) no_blocker

abbrev one_added : List Text
one_added = codes "8.8.0.0/16" ∷ []

abbrev wider_blocker : EgressIpBlocker
wider_blocker = or_default (egress_ip_blocker one_added) no_blocker

default_made : egress_ip_blocker [] ≡ some default_blocker
unfolding parse_ipv6 parse_ipv4 egress_ip_blocker parse_ipv4_cidr parse_ipv6_cidr
default_made = refl

wider_made : egress_ip_blocker one_added ≡ some wider_blocker
unfolding parse_ipv6 parse_ipv4 egress_ip_blocker parse_ipv4_cidr parse_ipv6_cidr
wider_made = refl

metadata_parsed :
    try_parse_ip (codes "0xa9.0xfe.43518:80") ≡ some (ParsedIp.ipv4 (address 169 254 169 254))
unfolding parse_ipv6 parse_ipv4 strip_port_and_brackets
metadata_parsed = refl

parse_ipv4-dotted_example : parse_ipv4 (dotted 192 168 0 17) ≡ some (address 192 168 0 17)
parse_ipv4-dotted_example =
    parse_ipv4-dotted 192 168 0 17 (omega arith) (omega arith) (omega arith) (omega arith)

is_ip_blocked-reserved_example : is_ip_blocked wider_blocker (codes "0xa9.0xfe.43518:80") ≡ true
is_ip_blocked-reserved_example =
    is_ip_blocked-reserved one_added wider_blocker wider_made (codes "0xa9.0xfe.43518:80")
      (address 169 254 169 254) metadata_parsed refl

public_parsed : try_parse_ip (codes "8.8.8.8") ≡ some (ParsedIp.ipv4 (address 8 8 8 8))
unfolding parse_ipv6 parse_ipv4 strip_port_and_brackets
public_parsed = refl

-- A name with a public address, or with a private one behind it.
abbrev resolver : Text → List Text
resolver host =
    if text_eq host (codes "a.b")
    then codes "8.8.8.8" ∷ codes "10.0.0.1" ∷ []
    else codes "8.8.4.4" ∷ []

allowed : (validate_destination resolver default_blocker (codes "b.c:443")).blocked ≡ false
unfolding parse_ipv6 parse_ipv4 hextet_digit strip_port_and_brackets is_parsed_blocked
    egress_ip_blocker is_ip_blocked is_ipv4_blocked is_ipv6_blocked parse_ipv4_cidr parse_ipv6_cidr
    validate_destination validate_resolved text_eq
allowed = refl

rebound :
    validate_destination resolver default_blocker (codes "a.b:443")
    ≡ record { blocked = true; ip = codes "10.0.0.1" }
unfolding parse_ipv6 parse_ipv4 hextet_digit strip_port_and_brackets is_parsed_blocked
    egress_ip_blocker is_ip_blocked is_ipv4_blocked is_ipv6_blocked parse_ipv4_cidr parse_ipv6_cidr
    validate_destination validate_resolved text_eq
rebound = refl

validate_destination_safe_example :
    IsAnswer resolver
      (strip_port_and_brackets (codes "b.c:443"))
      (try_parse_ip (strip_port_and_brackets (codes "b.c:443")))
      (validate_destination resolver default_blocker (codes "b.c:443")).ip
validate_destination_safe_example =
    validate_destination_safe [] default_blocker default_made resolver (codes "b.c:443") allowed

name_unparsed : try_parse_ip (strip_port_and_brackets (codes "a.b:443")) ≡ none
unfolding parse_ipv6 parse_ipv4 strip_port_and_brackets
name_unparsed = refl
