-- ===== src/Runtime/EgressIpBlocker.antt =====
-- runtime/sandbox/egress-ip-blocker.ts: the ranges and the checks; Ipv4Address and Ipv6Address are its
-- parsers. `& mask` of a prefix of the bits takes the other bits off. The resolver of names is a
-- parameter; the texts of the reasons are left out.
pub mod Ranges
pub mod Mapped
pub mod Destinations
pub mod Examples
use railfog.Prelude.{
  ℕ, zero, suc, ◌+◌, ◌-◌, ◌*◌, ◌/◌, ◌%◌, ◌^◌, Bool, true, false, not, ◌&&◌, ◌||◌, Option, none,
  some, List, [], ◌∷◌, ◌++◌, map, Text, codes, ◌==◌, ltb, leb, if◌then◌else◌, length, any, all,
  trim, is_digit, is_octal, is_hex, read_from, parts_of, cut_at, cut_at_last, parse_int, onto,
}
use railfog.Runtime.Ipv4Address.{parse_ipv4, ipv4_max}
use railfog.Runtime.Ipv6Address.{parse_ipv6}

pub record IpBlockResult : Type 0 where
  pub blocked : Bool
  pub ip : Text

-- A range: its network, and how many addresses it has, which is what the mask leaves out.
pub record Cidr : Type 0 where
  pub network : ℕ
  pub size : ℕ

pub data ParsedIp : Type 0 where
  ipv4 : (value : ℕ) → ParsedIp
  ipv6 : (value : ℕ) → ParsedIp

abbrev pub mandatory_blocked_ipv4_cidrs : List Text
mandatory_blocked_ipv4_cidrs =
    codes "169.254.0.0/16"
    ∷ codes "10.0.0.0/8"
    ∷ codes "172.16.0.0/12"
    ∷ codes "192.168.0.0/16"
    ∷ codes "127.0.0.0/8"
    ∷ codes "0.0.0.0/8"
    ∷ codes "100.64.0.0/10"
    ∷ codes "224.0.0.0/4"
    ∷ codes "240.0.0.0/4"
    ∷ []

abbrev pub mandatory_blocked_ipv6_cidrs : List Text
mandatory_blocked_ipv6_cidrs =
    codes "fd00:ec2::/8"
    ∷ codes "fc00::/7"
    ∷ codes "::1/128"
    ∷ codes "fe80::/10"
    ∷ codes "ff00::/8"
    ∷ codes "::/128"
    ∷ []

abbrev pub masked : (size value : ℕ) → ℕ
masked size value = value - value % size

-- `/^\d+$/` behind a colon
abbrev is_port : Text → Bool
is_port [] = false
is_port (c ∷ cs) = all is_digit (c ∷ cs)

abbrev pub ends_in_port : Text → Bool
ends_in_port [] = true
ends_in_port (c ∷ cs) = c == b':' && is_port cs

-- The two regular expressions of `stripPortAndBrackets`; none stands for no match.
abbrev pub bracketed : Text → Option Text
bracketed [] = none
bracketed (c ∷ cs) = if c == b'[' then inside (cut_at b']' cs) else none
  where
    inside : Option (Text × Text) → Option Text
    inside none = none
    inside (some ([], rest)) = none
    inside (some (d ∷ ds, rest)) = if ends_in_port rest then some (d ∷ ds) else none

abbrev pub before_port : Option (Text × Text) → Option Text
before_port none = none
before_port (some ([], rest)) = none
before_port (some (c ∷ cs, rest)) = if is_port rest then some (c ∷ cs) else none

abbrev pub first_match : Option Text → Option Text → Text → Text
first_match (some inner) other trimmed = inner
first_match none (some host) trimmed = host
first_match none none trimmed = trimmed

unfoldable pub strip_port_and_brackets : Text → Text
strip_port_and_brackets input =
    let trimmed = trim input in
    first_match (bracketed trimmed) (before_port (cut_at b':' trimmed)) trimmed

abbrev pub as_ip : (ℕ → ParsedIp) → Option ℕ → Option ParsedIp
as_ip kind none = none
as_ip kind (some value) = some (kind value)

abbrev pub try_parse_ip : Text → Option ParsedIp
try_parse_ip input =
    let clean = strip_port_and_brackets input in
    if any (λ c. c == b':') clean
    then as_ip ParsedIp.ipv6 (parse_ipv6 clean)
    else as_ip ParsedIp.ipv4 (parse_ipv4 clean)

-- A call that throws gives none.
abbrev pub cidr_of : (bits : ℕ) → Option (Bool × ℕ) → Option ℕ → Option Cidr
cidr_of bits none address = none
cidr_of bits (some (negative, prefix_len)) none = none
cidr_of bits (some (negative, prefix_len)) (some value) =
    if negative && ltb 0 prefix_len || ltb bits prefix_len
    then none
    else let size = 2 ^ (bits - prefix_len) in
      some (record { network = masked size value; size = size })

abbrev pub parse_cidr : (bits : ℕ) → (Text → Option ℕ) → Text → Option (Text × Text) → Option Cidr
parse_cidr bits parse cidr none = cidr_of bits (some (false, bits)) (parse cidr)
parse_cidr bits parse cidr (some (ip_str, prefix_str)) =
    cidr_of bits (parse_int prefix_str) (parse ip_str)

unfoldable pub parse_ipv4_cidr : Text → Option Cidr
parse_ipv4_cidr cidr = parse_cidr 32 parse_ipv4 cidr (cut_at b'/' cidr)

unfoldable pub parse_ipv6_cidr : Text → Option Cidr
parse_ipv6_cidr cidr = parse_cidr 128 parse_ipv6 cidr (cut_at b'/' cidr)

pub record EgressIpBlocker : Type 0 where
  pub ipv4_blocked_ranges : List Cidr
  pub ipv6_blocked_ranges : List Cidr

abbrev pub push_ipv4 : Option EgressIpBlocker → Option Cidr → Option EgressIpBlocker
push_ipv4 (some b) (some cidr) =
    some (record b { ipv4_blocked_ranges = b.ipv4_blocked_ranges ++ cidr ∷ [] })
push_ipv4 _ _ = none

abbrev pub push_ipv6 : Option EgressIpBlocker → Option Cidr → Option EgressIpBlocker
push_ipv6 (some b) (some cidr) =
    some (record b { ipv6_blocked_ranges = b.ipv6_blocked_ranges ++ cidr ∷ [] })
push_ipv6 _ _ = none

abbrev push : Option EgressIpBlocker → Text → Option EgressIpBlocker
push b cidr =
    if any (λ c. c == b':') cidr
    then push_ipv6 b (parse_ipv6_cidr cidr)
    else push_ipv4 b (parse_ipv4_cidr cidr)

-- The constructor's loops over texts of ranges.
abbrev pub push_all :
    (Option EgressIpBlocker → Text → Option EgressIpBlocker)
    → List Text
    → Option EgressIpBlocker
    → Option EgressIpBlocker
push_all add [] b = b
push_all add (cidr ∷ cidrs) b = push_all add cidrs (add b cidr)

abbrev pub mandatory : Option EgressIpBlocker
mandatory =
    push_all (λ b cidr. push_ipv6 b (parse_ipv6_cidr cidr)) mandatory_blocked_ipv6_cidrs
      (push_all (λ b cidr. push_ipv4 b (parse_ipv4_cidr cidr)) mandatory_blocked_ipv4_cidrs
        (some (record { ipv4_blocked_ranges = []; ipv6_blocked_ranges = [] })))

unfoldable pub egress_ip_blocker : (additional_blocked_ranges : List Text) → Option EgressIpBlocker
egress_ip_blocker additional_blocked_ranges = push_all push additional_blocked_ranges mandatory

abbrev pub in_ranges : List Cidr → ℕ → Bool
in_ranges [] value = false
in_ranges (cidr ∷ cidrs) value = masked cidr.size value == cidr.network || in_ranges cidrs value

unfoldable pub is_ipv4_blocked : EgressIpBlocker → ℕ → Bool
is_ipv4_blocked b value = in_ranges b.ipv4_blocked_ranges value

unfoldable pub is_ipv6_blocked : EgressIpBlocker → ℕ → Bool
is_ipv6_blocked b value = in_ranges b.ipv6_blocked_ranges value

-- `isIpBlocked` of what was parsed: an IPv4-mapped address and an IPv4-compatible one are decided by
-- the IPv4 address in their low 32 bits.
unfoldable pub is_parsed_blocked : EgressIpBlocker → Option ParsedIp → Bool
is_parsed_blocked b none = true
is_parsed_blocked b (some (ParsedIp.ipv4 value)) = is_ipv4_blocked b value
is_parsed_blocked b (some (ParsedIp.ipv6 value)) =
    if value / 4_294_967_296 == 65_535
    then is_ipv4_blocked b (value % 4_294_967_296)
    else if value / 4_294_967_296 == 0 && ltb 1 value
    then is_ipv4_blocked b (value % 4_294_967_296)
    else is_ipv6_blocked b value

unfoldable pub is_ip_blocked : EgressIpBlocker → Text → Bool
is_ip_blocked b ip = is_parsed_blocked b (try_parse_ip ip)

-- The `for` loop over the addresses that a name resolves to, with the first of them.
unfoldable pub validate_resolved : EgressIpBlocker → (first : Text) → List Text → IpBlockResult
validate_resolved b first [] = record { blocked = false; ip = first }
validate_resolved b first (resolved_ip ∷ ips) =
    let later = validate_resolved b first ips in
    if is_ip_blocked b resolved_ip then record { blocked = true; ip = resolved_ip } else later

abbrev pub validate_ips : EgressIpBlocker → (target : Text) → List Text → IpBlockResult
validate_ips b target [] = record { blocked = true; ip = target }
validate_ips b target (ip ∷ ips) = validate_resolved b ip (ip ∷ ips)

abbrev pub validate_target :
    ((host : Text) → List Text) → EgressIpBlocker → Text → Option ParsedIp → IpBlockResult
validate_target dns_resolver b target none = validate_ips b target (dns_resolver target)
validate_target dns_resolver b target (some parsed) = record {
  blocked = is_ip_blocked b target;
  ip = target;
}

unfoldable pub validate_destination :
    (dns_resolver : (host : Text) → List Text)
    → EgressIpBlocker
    → (host_or_ip : Text) → IpBlockResult
validate_destination dns_resolver b host_or_ip =
    let target = strip_port_and_brackets host_or_ip in
    validate_target dns_resolver b target (try_parse_ip target)
