-- ===== src/Runtime/EgressIpBlocker/Mapped.antt =====
-- runtime/sandbox/egress-ip-blocker.ts, `isIpBlocked` of addresses in their dotted decimal form, alone
-- and behind `::ffff:`.
use railfog.Prelude.{
  inr, ◌⊎◌, inl, ℕ, ◌+◌, ◌*◌, ◌/◌, ◌%◌, ◌≤◌, ◌<◌, ◌≡◌, refl, true, false, none, some, [], ◌∷◌, ◌++◌,
  Text, codes, ◌==◌, arith, any, Lacks, NoBlank, trim-NoBlank, cut_at-Lacks, any-Lacks,
}
use railfog.Runtime.Ipv4Address.{parse_ipv4}
use railfog.Runtime.Ipv4Address.Printing.{
  octet_text, address, dotted, parse_ipv4-dotted, parse_ipv4-bound, dotted-NoBlank, dotted-All,
  Digit,
}
use railfog.Runtime.Ipv6Address.Embedding.{parse_ipv6_mapped}
use railfog.Runtime.EgressIpBlocker.{
  ParsedIp, EgressIpBlocker, is_ipv4_blocked, is_parsed_blocked, is_ip_blocked, try_parse_ip,
  strip_port_and_brackets, bracketed,
}

bracketed-Lacks : (text : Text) → Lacks b'[' text → bracketed text ≡ none
bracketed-Lacks [] h = refl
bracketed-Lacks (c ∷ cs) (h, hs) = rw h refl

-- Texts without blanks, brackets and colons are taken as they are, and for IPv4 addresses.
strip_port_and_brackets_plain :
    (text : Text)
    → NoBlank text
    → Lacks b'[' text
    → Lacks b':' text
    → strip_port_and_brackets text ≡ text
unfolding strip_port_and_brackets
strip_port_and_brackets_plain text no_blank no_bracket no_colon =
    rw
      (trim-NoBlank text no_blank, bracketed-Lacks text no_bracket, cut_at-Lacks b':' text no_colon)
      refl

strip_port_and_brackets_mapped :
    (text : Text)
    → NoBlank text
    → strip_port_and_brackets (codes "::ffff:" ++ text) ≡ codes "::ffff:" ++ text
unfolding strip_port_and_brackets
strip_port_and_brackets_mapped text no_blank =
    rw
      (trim-NoBlank (codes "::ffff:" ++ text)
        (refl, (refl, (refl, (refl, (refl, (refl, (refl, no_blank))))))))
      refl

Digit-not :
    (mark : ℕ)
    → (mark ≡ b':') ⊎ ((mark ≡ b'[') ⊎ (mark ≡ b'.'))
    → (c : ℕ) → Digit c
    → (c == mark) ≡ false
Digit-not mark other c h = ground arith

any-dot : (text rest : Text) → any (λ c. c == b'.') (text ++ b'.' ∷ rest) ≡ true
any-dot [] rest = refl
any-dot (c ∷ cs) rest = ground (arith, any-dot cs rest)

is_parsed_blocked_mapped :
    (blocker : EgressIpBlocker) (value : ℕ)
    → value < 4_294_967_296
    → is_parsed_blocked blocker (some (ParsedIp.ipv6 (65_535 * 4_294_967_296 + value)))
      ≡ is_ipv4_blocked blocker value
unfolding is_parsed_blocked
is_parsed_blocked_mapped blocker value fits = rw (quotient, remainder) refl
  where
    quotient : (65_535 * 4_294_967_296 + value) / 4_294_967_296 ≡ 65_535
    quotient = omega arith

    remainder : (65_535 * 4_294_967_296 + value) % 4_294_967_296 ≡ value
    remainder = omega arith

module _ (a b c d : ℕ) (a_fits : a ≤ 255) (b_fits : b ≤ 255) (c_fits : c ≤ 255)
    (d_fits : d ≤ 255) where
  dotted-Lacks_colon : Lacks b':' (dotted a b c d)
  dotted-Lacks_colon =
      dotted-All a b c d a_fits b_fits c_fits d_fits (λ x. (x == b':') ≡ false)
        (Digit-not b':' (inl refl)) refl

  dotted-Lacks_bracket : Lacks b'[' (dotted a b c d)
  dotted-Lacks_bracket =
      dotted-All a b c d a_fits b_fits c_fits d_fits (λ x. (x == b'[') ≡ false)
        (Digit-not b'[' (inr (inl refl))) refl

  no_blank : NoBlank (dotted a b c d)
  no_blank = dotted-NoBlank a b c d a_fits b_fits c_fits d_fits

  has_dot : any (λ x. x == b'.') (dotted a b c d) ≡ true
  has_dot = any-dot (octet_text a) _

  parsed : parse_ipv4 (dotted a b c d) ≡ some (address a b c d)
  parsed = parse_ipv4-dotted a b c d a_fits b_fits c_fits d_fits

  pub try_parse_ip-dotted : try_parse_ip (dotted a b c d) ≡ some (ParsedIp.ipv4 (address a b c d))
  try_parse_ip-dotted =
      rw
        (
          strip_port_and_brackets_plain (dotted a b c d) no_blank dotted-Lacks_bracket
              dotted-Lacks_colon,
          any-Lacks b':' (dotted a b c d) dotted-Lacks_colon,
          parsed,
        )
        refl

  pub try_parse_ip_mapped :
      try_parse_ip (codes "::ffff:" ++ dotted a b c d)
      ≡ some (ParsedIp.ipv6 (65_535 * 4_294_967_296 + address a b c d))
  try_parse_ip_mapped =
      rw
        (
          strip_port_and_brackets_mapped (dotted a b c d) no_blank,
          parse_ipv6_mapped (dotted a b c d) dotted-Lacks_colon no_blank has_dot (address a b c d)
              parsed (parse_ipv4-bound (dotted a b c d) _ parsed),
        )
        refl

  -- An IPv4-mapped IPv6 address is blocked exactly when its IPv4 address is.
  pub is_ip_blocked_mapped :
      (blocker : EgressIpBlocker)
      → is_ip_blocked blocker (codes "::ffff:" ++ dotted a b c d)
        ≡ is_ip_blocked blocker (dotted a b c d)
  unfolding is_ip_blocked is_parsed_blocked
  is_ip_blocked_mapped blocker =
      rw (try_parse_ip_mapped, try_parse_ip-dotted)
        (is_parsed_blocked_mapped blocker (address a b c d)
          (parse_ipv4-bound (dotted a b c d) _ parsed))
