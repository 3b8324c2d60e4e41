-- ===== src/Runtime/Ipv4Address/Printing.antt =====
-- runtime/sandbox/egress-ip-blocker.ts, `parseIPv4`: the dotted form of an address is read back, and
-- what is read is an address.
use railfog.Prelude.{
  inr, inl, Bool-cases, ap, ℕ, ◌+◌, ◌*◌, ◌/◌, ◌%◌, ◌≤◌, ◌<◌, ◌≡◌, refl, false, Option, none, some,
  List, [], ◌∷◌, ◌++◌, Text, ◌==◌, ltb, if◌then◌else◌, arith, All, is_blank, parts_of, length, trim,
  Lacks, NoBlank, All-mono, All-append, trim-NoBlank, parts_of-Lacks, parts_of-append,
}
use railfog.Runtime.Ipv4Address.{
  parse_ipv4, parse_part, combine, parse_parts, combine_parsed, parse_split,
}

abbrev pub octet_text : ℕ → Text
octet_text n =
    if ltb n 10
    then (b'0' + n) ∷ []
    else if ltb n 100
    then (b'0' + n / 10) ∷ (b'0' + n % 10) ∷ []
    else (b'0' + n / 100) ∷ (b'0' + n / 10 % 10) ∷ (b'0' + n % 10) ∷ []

abbrev pub dotted : (a b c d : ℕ) → Text
dotted a b c d =
    octet_text a ++ b'.' ∷ (octet_text b ++ b'.' ∷ (octet_text c ++ b'.' ∷ octet_text d))

abbrev pub address : (a b c d : ℕ) → ℕ
address a b c d = a * 16_777_216 + b * 65_536 + c * 256 + d

abbrev pub Digit : ℕ → Type 0
Digit c = (48 ≤ c) × (c ≤ 57)

pub octet_text-Digits : (n : ℕ) → n ≤ 255 → All Digit (octet_text n)
octet_text-Digits n h = ground arith

parse_part-octet_text : (n : ℕ) → n ≤ 255 → parse_part (octet_text n) ≡ some n
parse_part-octet_text n h = ground arith

Digit-no_blank : (c : ℕ) → Digit c → is_blank c ≡ false
Digit-no_blank c (low, high) = ground arith

Digit-not_dot : (c : ℕ) → Digit c → (c == b'.') ≡ false
Digit-not_dot c (low, high) = ground arith

octet_text-Lacks : (n : ℕ) → n ≤ 255 → Lacks b'.' (octet_text n)
octet_text-Lacks n h = All-mono Digit-not_dot (octet_text n) (octet_text-Digits n h)

octet : (P : ℕ → Type 0) → ((x : ℕ) → Digit x → P x) → (n : ℕ) → n ≤ 255 → All P (octet_text n)
octet P digit n h = All-mono digit (octet_text n) (octet_text-Digits n h)

module _ (a b c d : ℕ) (a_fits : a ≤ 255) (b_fits : b ≤ 255) (c_fits : c ≤ 255)
    (d_fits : d ≤ 255) where
  -- What holds of the digits and of the dot holds of each character.
  pub dotted-All : (P : ℕ → Type 0) → ((x : ℕ) → Digit x → P x) → P b'.' → All P (dotted a b c d)
  dotted-All P digit dot = All-append P (octet_text a) _ (octet P digit a a_fits) (
    dot,
    All-append P (octet_text b) _ (octet P digit b b_fits)
        (dot, All-append P (octet_text c) _ (octet P digit c c_fits) (dot, octet P digit d d_fits)),
  )

  pub dotted-NoBlank : NoBlank (dotted a b c d)
  dotted-NoBlank = dotted-All (λ x. is_blank x ≡ false) Digit-no_blank refl

  parts_of-dotted :
      parts_of b'.' (dotted a b c d)
      ≡ octet_text a ∷ octet_text b ∷ octet_text c ∷ octet_text d ∷ []
  parts_of-dotted =
      rw
        (
          parts_of-append b'.' (octet_text a) _ (octet_text-Lacks a a_fits),
          parts_of-append b'.' (octet_text b) _ (octet_text-Lacks b b_fits),
          parts_of-append b'.' (octet_text c) _ (octet_text-Lacks c c_fits),
          parts_of-Lacks b'.' (octet_text d) (octet_text-Lacks d d_fits),
        )
        refl

  combine_fits : combine (a ∷ b ∷ c ∷ d ∷ []) ≡ some (address a b c d)
  combine_fits = ground arith

  parsed_parts :
      parse_split (octet_text a ∷ octet_text b ∷ octet_text c ∷ octet_text d ∷ [])
      ≡ some (address a b c d)
  parsed_parts =
      rw
        (
          parse_part-octet_text a a_fits,
          parse_part-octet_text b b_fits,
          parse_part-octet_text c c_fits,
          parse_part-octet_text d d_fits,
        )
        combine_fits

  -- The dotted decimal form of four octets is read back as the address that they form.
  pub parse_ipv4-dotted : parse_ipv4 (dotted a b c d) ≡ some (address a b c d)
  unfolding parse_ipv4
  parse_ipv4-dotted =
      cc (trim-NoBlank _ dotted-NoBlank, ap parse_split parts_of-dotted, parsed_parts)

combine-bound : (values : List ℕ) (v : ℕ) → combine values ≡ some v → v < 4_294_967_296
combine-bound [] v h = cc
combine-bound (a ∷ []) v h = ground arith
combine-bound (a ∷ b ∷ []) v h = ground arith
combine-bound (a ∷ b ∷ c ∷ []) v h = ground arith
combine-bound (a ∷ b ∷ c ∷ d ∷ []) v h = ground arith
combine-bound (a ∷ b ∷ c ∷ d ∷ e ∷ rest) v h = cc

combine_parsed-bound :
    (parsed : Option (List ℕ)) (v : ℕ) → combine_parsed parsed ≡ some v → v < 4_294_967_296
combine_parsed-bound none v h = cc
combine_parsed-bound (some values) v h = combine-bound values v h

parse_split-bound : (parts : List Text) (v : ℕ) → parse_split parts ≡ some v → v < 4_294_967_296
parse_split-bound parts v h = elim (Bool-cases (ltb 4 (length parts))) [
  | inl long ↦ ground arith
  | inr short ↦ combine_parsed-bound (parse_parts parts) v (ground arith)
]

-- Whatever is read as an IPv4 address, in any of its forms, has at most 32 bits.
pub parse_ipv4-bound : (input : Text) (v : ℕ) → parse_ipv4 input ≡ some v → v < 4_294_967_296
unfolding parse_ipv4
parse_ipv4-bound input v h = parse_split-bound (parts_of b'.' (trim input)) v h
