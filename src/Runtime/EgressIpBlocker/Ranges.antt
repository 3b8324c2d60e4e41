-- ===== src/Runtime/EgressIpBlocker/Ranges.antt =====
-- runtime/sandbox/egress-ip-blocker.ts, the constructor and `isIpBlocked`: which addresses are blocked.
use railfog.Prelude.{
  ◌/◌, ◌%◌, append_assoc, inr, inl, sym, Bool-cases, subst, ℕ, ◌+◌, ◌*◌, ◌^◌, ◌≡◌, refl, ap, ◌∙◌,
  Bool, true, ◌&&◌, Option, none, some, List, [], ◌∷◌, ◌++◌, Text, ◌==◌, leb, arith, any,
}
use railfog.Runtime.Ipv4Address.{parse_ipv4}
use railfog.Runtime.Ipv4Address.Printing.{address}
use railfog.Runtime.Ipv6Address.{parse_ipv6}
use railfog.Runtime.EgressIpBlocker.{
  Cidr, ParsedIp, EgressIpBlocker, egress_ip_blocker, mandatory, push, push_all, in_ranges, masked,
  is_ipv4_blocked, is_parsed_blocked, is_ip_blocked, try_parse_ip, parse_ipv4_cidr, parse_ipv6_cidr,
  push_ipv4, push_ipv6,
}

abbrev within : ℕ × ℕ → ℕ → Bool
within (first, last) value = leb first value && leb value last

-- The blocked ranges by their first and last addresses.
abbrev pub reserved_ranges : List (ℕ × ℕ)
reserved_ranges =
    (address 169 254 0 0, address 169 254 255 255)
    ∷ (address 10 0 0 0, address 10 255 255 255)
    ∷ (address 172 16 0 0, address 172 31 255 255)
    ∷ (address 192 168 0 0, address 192 168 255 255)
    ∷ (address 127 0 0 0, address 127 255 255 255)
    ∷ (address 0 0 0 0, address 0 255 255 255)
    ∷ (address 100 64 0 0, address 100 127 255 255)
    ∷ (address 224 0 0 0, address 239 255 255 255)
    ∷ (address 240 0 0 0, address 255 255 255 255)
    ∷ []

abbrev pub reserved : ℕ → Bool
reserved value = any (λ range. within range value) reserved_ranges

abbrev cidr_from : (network size : ℕ) → Cidr
cidr_from network size = record { network = network; size = size }

abbrev mandatory_ipv4 : List Cidr
mandatory_ipv4 =
    cidr_from (address 169 254 0 0) 65_536
    ∷ cidr_from (address 10 0 0 0) 16_777_216
    ∷ cidr_from (address 172 16 0 0) 1_048_576
    ∷ cidr_from (address 192 168 0 0) 65_536
    ∷ cidr_from (address 127 0 0 0) 16_777_216
    ∷ cidr_from (address 0 0 0 0) 16_777_216
    ∷ cidr_from (address 100 64 0 0) 4_194_304
    ∷ cidr_from (address 224 0 0 0) 268_435_456
    ∷ cidr_from (address 240 0 0 0) 268_435_456
    ∷ []

abbrev mandatory_ipv6 : List Cidr
mandatory_ipv6 =
    cidr_from (253 * 2 ^ 120) (2 ^ 120)
    ∷ cidr_from (252 * 2 ^ 120) (2 ^ 121)
    ∷ cidr_from 1 1
    ∷ cidr_from (1018 * 2 ^ 118) (2 ^ 118)
    ∷ cidr_from (255 * 2 ^ 120) (2 ^ 120)
    ∷ cidr_from 0 1
    ∷ []

mandatory_parsed :
    mandatory
    ≡ some (record { ipv4_blocked_ranges = mandatory_ipv4; ipv6_blocked_ranges = mandatory_ipv6 })
unfolding parse_ipv6 parse_ipv4 parse_ipv4_cidr parse_ipv6_cidr
mandatory_parsed = refl

-- What the constructor adds is put behind what is there.
abbrev Extends : List Cidr → List Cidr → Type 0
Extends before after = (more : List Cidr) × (after ≡ before ++ more)

in_ranges-append :
    (before more : List Cidr) (value : ℕ)
    → in_ranges before value ≡ true
    → in_ranges (before ++ more) value ≡ true
in_ranges-append [] more value h = cc
in_ranges-append (cidr ∷ cidrs) more value h = ground (arith, in_ranges-append cidrs more value)

within_16 :
    (q value : ℕ) → (masked 65536 value == q * 65536) ≡ within (q * 65536, q * 65536 + 65535) value
within_16 q value = ground arith

within_8 :
    (q value : ℕ)
    → (masked 16777216 value == q * 16777216) ≡ within (q * 16777216, q * 16777216 + 16777215) value
within_8 q value = ground arith

within_12 :
    (q value : ℕ)
    → (masked 1048576 value == q * 1048576) ≡ within (q * 1048576, q * 1048576 + 1048575) value
within_12 q value = ground arith

within_10 :
    (q value : ℕ)
    → (masked 4194304 value == q * 4194304) ≡ within (q * 4194304, q * 4194304 + 4194303) value
within_10 q value = ground arith

within_4 :
    (q value : ℕ)
    → (masked 268435456 value == q * 268435456)
      ≡ within (q * 268435456, q * 268435456 + 268435455) value
within_4 q value = ground arith

reserved_at : (value : ℕ) → in_ranges mandatory_ipv4 value ≡ reserved value
reserved_at value =
    rw
      (
        within_16 43518 value,
        within_8 10 value,
        within_12 2753 value,
        within_16 49320 value,
        within_8 127 value,
        within_8 0 value,
        within_10 401 value,
        within_4 14 value,
        within_4 15 value,
      )
      refl

-- Where there is a blocker, its IPv4 ranges begin with those of the constructor.
abbrev Keeps : Option EgressIpBlocker → Type 0
Keeps none = Unit
Keeps (some b) = Extends mandatory_ipv4 b.ipv4_blocked_ranges

extended :
    (before : List Cidr) (cidr : Cidr)
    → Extends mandatory_ipv4 before
    → Extends mandatory_ipv4 (before ++ cidr ∷ [])
extended before cidr (more, e) =
    (more ++ cidr ∷ [], rw e (append_assoc mandatory_ipv4 more (cidr ∷ [])))

push_ipv4-Keeps :
    (b : Option EgressIpBlocker) (cidr : Option Cidr) → Keeps b → Keeps (push_ipv4 b cidr)
push_ipv4-Keeps none cidr h = tt
push_ipv4-Keeps (some b) none h = tt
push_ipv4-Keeps (some b) (some cidr) h = extended b.ipv4_blocked_ranges cidr h

push_ipv6-Keeps :
    (b : Option EgressIpBlocker) (cidr : Option Cidr) → Keeps b → Keeps (push_ipv6 b cidr)
push_ipv6-Keeps none cidr h = tt
push_ipv6-Keeps (some b) none h = tt
push_ipv6-Keeps (some b) (some cidr) h = h

push-Keeps : (b : Option EgressIpBlocker) (cidr : Text) → Keeps b → Keeps (push b cidr)
push-Keeps b cidr h = elim (Bool-cases (any (λ c. c == b':') cidr)) [
  | inl e ↦ rw e (push_ipv6-Keeps b (parse_ipv6_cidr cidr) h)
  | inr e ↦ rw e (push_ipv4-Keeps b (parse_ipv4_cidr cidr) h)
]

push_all-Keeps :
    (cidrs : List Text) (b : Option EgressIpBlocker) → Keeps b → Keeps (push_all push cidrs b)
push_all-Keeps [] b h = h
push_all-Keeps (cidr ∷ cidrs) b h = push_all-Keeps cidrs (push b cidr) (push-Keeps b cidr h)

mandatory-Keeps : Keeps mandatory
mandatory-Keeps = subst Keeps (sym mandatory_parsed) ([], refl)

constructed :
    (extra : List Text) (blocker : EgressIpBlocker)
    → egress_ip_blocker extra ≡ some blocker
    → Extends mandatory_ipv4 blocker.ipv4_blocked_ranges
unfolding egress_ip_blocker
constructed extra blocker made = subst Keeps made (push_all-Keeps extra mandatory mandatory-Keeps)

reserved_blocked_ipv4 :
    (blocker : EgressIpBlocker) (value : ℕ)
    → Extends mandatory_ipv4 blocker.ipv4_blocked_ranges
    → reserved value ≡ true
    → is_ipv4_blocked blocker value ≡ true
unfolding is_ipv4_blocked
reserved_blocked_ipv4 blocker value (more, e) h =
    rw e (in_ranges-append mandatory_ipv4 more value (reserved_at value ∙ h))

module _ (extra : List Text) (blocker : EgressIpBlocker)
    (made : egress_ip_blocker extra ≡ some blocker) (ip : Text) (value : ℕ) where
  -- Whatever ranges are added, every form of an IPv4 address in a reserved range is blocked.
  pub is_ip_blocked-reserved :
      try_parse_ip ip ≡ some (ParsedIp.ipv4 value)
      → reserved value ≡ true
      → is_ip_blocked blocker ip ≡ true
  unfolding is_ip_blocked is_parsed_blocked
  is_ip_blocked-reserved parsed h =
      rw parsed (reserved_blocked_ipv4 blocker value (constructed extra blocker made) h)

  -- The same of an IPv6 address that an IPv4 address in a reserved range is mapped to.
  pub is_ip_blocked-mapped_reserved :
      try_parse_ip ip ≡ some (ParsedIp.ipv6 value)
      → value / 4_294_967_296 ≡ 65_535
      → reserved (value % 4_294_967_296) ≡ true
      → is_ip_blocked blocker ip ≡ true
  unfolding is_ip_blocked is_parsed_blocked
  is_ip_blocked-mapped_reserved parsed mapped h =
      rw (parsed, mapped)
        (reserved_blocked_ipv4 blocker (value % 4_294_967_296) (constructed extra blocker made) h)

abbrev ranges_of : Option EgressIpBlocker → List Cidr
ranges_of none = []
ranges_of (some b) = b.ipv4_blocked_ranges

-- With no range added, exactly the IPv4 addresses in the reserved ranges are blocked.
pub is_ip_blocked-exact :
    (blocker : EgressIpBlocker)
    → egress_ip_blocker [] ≡ some blocker
    → (ip : Text) (value : ℕ) → try_parse_ip ip ≡ some (ParsedIp.ipv4 value)
    → is_ip_blocked blocker ip ≡ reserved value
unfolding is_ip_blocked is_parsed_blocked egress_ip_blocker is_ipv4_blocked
is_ip_blocked-exact blocker made ip value parsed =
    rw (parsed, ap ranges_of (sym made ∙ mandatory_parsed)) (reserved_at value)
