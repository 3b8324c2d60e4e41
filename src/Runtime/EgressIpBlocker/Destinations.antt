-- ===== src/Runtime/EgressIpBlocker/Destinations.antt =====
-- runtime/sandbox/egress-ip-blocker.ts, `validateDestination`: what an answer promises.
use railfog.Prelude.{
  ◌/◌, ◌%◌, Option-cases, inr, ◌∙◌, inl, Bool-cases, sym, ◌⊎◌, All, ℕ, ◌≡◌, refl, Bool, true, false,
  Option, none, some, List, [], ◌∷◌, Text, any, arith,
}
use railfog.Runtime.EgressIpBlocker.Ranges.{
  reserved, is_ip_blocked-reserved, is_ip_blocked-mapped_reserved,
}
use railfog.Runtime.EgressIpBlocker.{
  is_parsed_blocked, egress_ip_blocker, EgressIpBlocker, ParsedIp, is_ip_blocked, try_parse_ip,
  strip_port_and_brackets, validate_resolved, validate_ips, validate_target, validate_destination,
}

-- No address at all, or a blocked one among them.
abbrev pub refuses : EgressIpBlocker → List Text → Bool
refuses b [] = true
refuses b (ip ∷ ips) = any (is_ip_blocked b) (ip ∷ ips)

module _ (b : EgressIpBlocker) where
  validate_resolved-blocked :
      (first : Text) (ips : List Text)
      → (validate_resolved b first ips).blocked ≡ any (is_ip_blocked b) ips
  unfolding validate_resolved
  validate_resolved-blocked first [] = refl
  validate_resolved-blocked first (ip ∷ ips) = ground (arith, validate_resolved-blocked first ips)

  validate_resolved-first :
      (first : Text) (ips : List Text)
      → (validate_resolved b first ips).blocked ≡ false
      → (validate_resolved b first ips).ip ≡ first
  unfolding validate_resolved
  validate_resolved-first first [] h = refl
  validate_resolved-first first (ip ∷ ips) h = ground (arith, validate_resolved-first first ips)

  validate_ips-blocked :
      (target : Text) (ips : List Text) → (validate_ips b target ips).blocked ≡ refuses b ips
  validate_ips-blocked target [] = refl
  validate_ips-blocked target (ip ∷ ips) = validate_resolved-blocked ip (ip ∷ ips)

  validate_ips-ip :
      (target : Text) (ips : List Text)
      → (validate_ips b target ips).blocked ≡ false
      → is_ip_blocked b (validate_ips b target ips).ip ≡ false
  validate_ips-ip target [] h = cc
  validate_ips-ip target (ip ∷ ips) h =
      ground
        (arith, validate_resolved-first ip (ip ∷ ips) h, validate_resolved-blocked ip (ip ∷ ips))

  module _ (dns_resolver : (host : Text) → List Text) where
    -- A host that is no address, without its port, is blocked exactly when it resolves to no address or
    -- to a blocked one among others.
    pub validate_destination-resolved :
        (host_or_ip : Text)
        → try_parse_ip (strip_port_and_brackets host_or_ip) ≡ none
        → (validate_destination dns_resolver b host_or_ip).blocked
          ≡ refuses b (dns_resolver (strip_port_and_brackets host_or_ip))
    unfolding validate_destination
    validate_destination-resolved host_or_ip unparsed = rw unparsed (validate_ips-blocked _ _)

-- An address outside the reserved ranges, be it an IPv4 address or one that is mapped to IPv6: it is an
-- address, and whichever number it is read as, that number lies outside.
abbrev pub Outside : Text → Type 0
Outside ip =
    ((parsed : ParsedIp) × (try_parse_ip ip ≡ some parsed))
    × ((value : ℕ) → try_parse_ip ip ≡ some (ParsedIp.ipv4 value) → reserved value ≡ false)
    × ((value : ℕ)
        → try_parse_ip ip ≡ some (ParsedIp.ipv6 value)
        → value / 4_294_967_296 ≡ 65_535
        → reserved (value % 4_294_967_296) ≡ false)

-- What stands first in a list whose elements are all outside.
abbrev pub FirstOutside : Text → List Text → Type 0
FirstOutside ip [] = ⊥
FirstOutside ip (first ∷ ips) = (ip ≡ first) × All Outside (first ∷ ips)

-- The address of the answer: the target itself, if it is an address; otherwise the first to which the
-- name resolves, all of which lie outside.
abbrev pub IsAnswer :
    ((host : Text) → List Text) → (target : Text) → Option ParsedIp → Text → Type 0
IsAnswer dns_resolver target none ip = FirstOutside ip (dns_resolver target)
IsAnswer dns_resolver target (some parsed) ip = (ip ≡ target) × Outside target

module _ (extra : List Text) (b : EgressIpBlocker) (made : egress_ip_blocker extra ≡ some b) where
  unparsed_blocked : (ip : Text) → try_parse_ip ip ≡ none → is_ip_blocked b ip ≡ true
  unfolding is_ip_blocked is_parsed_blocked
  unparsed_blocked ip e = rw e refl

  unblocked-Outside : (ip : Text) → is_ip_blocked b ip ≡ false → Outside ip
  unblocked-Outside ip h = (is_parsed (Option-cases (try_parse_ip ip)), outside, outside_mapped)
    where
      is_parsed :
          (try_parse_ip ip ≡ none) ⊎ ((parsed : ParsedIp) × (try_parse_ip ip ≡ some parsed))
          → (parsed : ParsedIp) × (try_parse_ip ip ≡ some parsed)
      is_parsed (inl e) = let blocked = unparsed_blocked ip e in absurd cc
      is_parsed (inr found) = found

      outside : (value : ℕ) → try_parse_ip ip ≡ some (ParsedIp.ipv4 value) → reserved value ≡ false
      outside value e = elim (Bool-cases (reserved value)) [
        | inl inside ↦
            let blocked = is_ip_blocked-reserved extra b made ip value e inside in absurd cc
        | inr out ↦ out
      ]

      outside_mapped :
          (value : ℕ)
          → try_parse_ip ip ≡ some (ParsedIp.ipv6 value)
          → value / 4_294_967_296 ≡ 65_535
          → reserved (value % 4_294_967_296) ≡ false
      outside_mapped value e mapped = elim (Bool-cases (reserved (value % 4_294_967_296))) [
        | inl inside ↦
            let blocked = is_ip_blocked-mapped_reserved extra b made ip value e mapped inside in
            absurd cc
        | inr out ↦ out
      ]

  any_blocked-Outside : (ips : List Text) → any (is_ip_blocked b) ips ≡ false → All Outside ips
  any_blocked-Outside [] h = tt
  any_blocked-Outside (ip ∷ ips) h = elim (Bool-cases (is_ip_blocked b ip)) [
    | inl blocked ↦ absurd cc
    | inr free ↦ (unblocked-Outside ip free, any_blocked-Outside ips (ground (arith, h, free)))
  ]

  validate_ips-FirstOutside :
      (target : Text) (ips : List Text)
      → (validate_ips b target ips).blocked ≡ false
      → FirstOutside (validate_ips b target ips).ip ips
  validate_ips-FirstOutside target [] h = cc
  validate_ips-FirstOutside target (ip ∷ ips) h = (
    validate_resolved-first b ip (ip ∷ ips) h,
    any_blocked-Outside (ip ∷ ips) (sym (validate_resolved-blocked b ip (ip ∷ ips)) ∙ h),
  )

  module _ (dns_resolver : (host : Text) → List Text) where
    validate_target-IsAnswer :
        (target : Text) (parsed : Option ParsedIp)
        → (validate_target dns_resolver b target parsed).blocked ≡ false
        → IsAnswer dns_resolver target parsed (validate_target dns_resolver b target parsed).ip
    validate_target-IsAnswer target none h =
        validate_ips-FirstOutside target (dns_resolver target) h
    validate_target-IsAnswer target (some parsed) h = (refl, unblocked-Outside target h)

    -- Of a blocker that the constructor made, with any ranges added: the address of an answer that is not
    -- blocked is the target, without its port, when that is an address outside the reserved IPv4 ranges;
    -- or else the first of the addresses to which the target resolves, and every one of them, not the
    -- first alone, is an address outside these ranges. An IPv4 address that is mapped to IPv6 counts
    -- as the IPv4 address.
    pub validate_destination_safe :
        (host_or_ip : Text)
        → let answer = validate_destination dns_resolver b host_or_ip in
          let target = strip_port_and_brackets host_or_ip in
          answer.blocked ≡ false → IsAnswer dns_resolver target (try_parse_ip target) answer.ip
    unfolding validate_destination
    validate_destination_safe host_or_ip h =
        validate_target-IsAnswer (strip_port_and_brackets host_or_ip)
          (try_parse_ip (strip_port_and_brackets host_or_ip)) h
