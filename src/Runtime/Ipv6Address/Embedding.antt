-- ===== src/Runtime/Ipv6Address/Embedding.antt =====
-- runtime/sandbox/egress-ip-blocker.ts, `parseIPv6`: an IPv4 address written behind `::ffff:` is read as
-- the IPv4-mapped address, and what is read is an address.
use railfog.Prelude.{
  ◌∙◌, le→leb, map, all, ap, ℕ, ◌+◌, ◌*◌, ◌/◌, ◌%◌, ◌≤◌, ◌<◌, ◌≡◌, refl, true, false, none, some,
  List, [], ◌∷◌, ◌++◌, Text, codes, ◌==◌, arith, All, any, is_blank, length, is_hex, read_from,
  digit_value, cut_at_last, Lacks, NoBlank, All-mono, trim-NoBlank, parts_of-Lacks, parts_of-append,
  cut_at_last-Lacks,
}
use railfog.Runtime.Ipv4Address.{parse_ipv4}
use railfog.Runtime.Ipv6Address.{
  parse_ipv6, hex_text, is_hextet, cut_at_double_colon, hextets, filled, with_hextets, without_dots,
  read_all, read_undotted, hextet_digit, nibbles,
}

-- A digit of `toString(16)`.
abbrev HexDigit : ℕ → Type 0
HexDigit c = ((c == b':') ≡ false) × (is_blank c ≡ false) × (is_hex c ≡ true)

hextet_digit-HexDigit : (n : ℕ) → n < 16 → HexDigit (hextet_digit n)
unfolding hextet_digit
hextet_digit-HexDigit n h = ground arith

digit_value-hextet_digit : (n : ℕ) → n < 16 → digit_value (hextet_digit n) ≡ n
unfolding hextet_digit
digit_value-hextet_digit n h = ground arith

abbrev Nibble : ℕ → Type 0
Nibble n = n < 16

-- The number that nibbles spell, after a number.
abbrev folded : List ℕ → ℕ → ℕ
folded [] n = n
folded (d ∷ ds) n = folded ds (n * 16 + d)

nibbles-Nibbles : (n : ℕ) → n < 65_536 → All Nibble (nibbles n)
nibbles-Nibbles n h = ground arith

folded-nibbles : (n : ℕ) → n < 65_536 → folded (nibbles n) 0 ≡ n
folded-nibbles n h = ground arith

map-HexDigits : (ds : List ℕ) → All Nibble ds → All HexDigit (map hextet_digit ds)
map-HexDigits [] h = tt
map-HexDigits (d ∷ ds) (h, hs) = (hextet_digit-HexDigit d h, map-HexDigits ds hs)

read_from-map :
    (ds : List ℕ) (n : ℕ) → All Nibble ds → read_from 16 (map hextet_digit ds) n ≡ folded ds n
read_from-map [] n h = refl
read_from-map (d ∷ ds) n (h, hs) =
    rw (read_from, digit_value-hextet_digit d h) (read_from-map ds (n * 16 + d) hs)

all-HexDigits : (text : Text) → All HexDigit text → all is_hex text ≡ true
all-HexDigits [] h = refl
all-HexDigits (c ∷ cs) (h, hs) = rw (h.2, all-HexDigits cs hs) refl

is_hextet-HexDigits :
    (text : Text) → All HexDigit text → 1 ≤ length text → length text ≤ 4 → is_hextet text ≡ true
is_hextet-HexDigits [] h low high = absurd (omega arith)
is_hextet-HexDigits (c ∷ cs) h low high = rw (all-HexDigits (c ∷ cs) h, le→leb _ _ high) refl

module _ (n : ℕ) (fits : n < 65_536) where
  hex_text-HexDigits : All HexDigit (hex_text n)
  hex_text-HexDigits = map-HexDigits (nibbles n) (nibbles-Nibbles n fits)

  read_from-hex_text : read_from 16 (hex_text n) 0 ≡ n
  read_from-hex_text =
      rw (read_from-map (nibbles n) 0 (nibbles-Nibbles n fits)) (folded-nibbles n fits)

  is_hextet-hex_text : is_hextet (hex_text n) ≡ true
  is_hextet-hex_text =
      is_hextet-HexDigits (hex_text n) hex_text-HexDigits (ground arith) (ground arith)

HexDigit-not_colon : (c : ℕ) → HexDigit c → (c == b':') ≡ false
HexDigit-not_colon c h = h.0

hex_text-Lacks : (n : ℕ) → n < 65_536 → Lacks b':' (hex_text n)
hex_text-Lacks n fits = All-mono HexDigit-not_colon (hex_text n) (hex_text-HexDigits n fits)

-- No double colon: after a character that is no colon, and after a colon that such a one follows.
cut_at_double_colon_cons :
    (c : ℕ) (cs : Text)
    → ((c == b':') ≡ false)
    → cut_at_double_colon cs ≡ none
    → cut_at_double_colon (c ∷ cs) ≡ none
cut_at_double_colon_cons c [] differs e = refl
cut_at_double_colon_cons c (d ∷ ds) differs e = rw (e, differs) refl

cut_at_double_colon-Lacks :
    (text rest : Text)
    → Lacks b':' text
    → cut_at_double_colon rest ≡ none
    → cut_at_double_colon (text ++ rest) ≡ none
cut_at_double_colon-Lacks [] rest h e = e
cut_at_double_colon-Lacks (c ∷ cs) rest (h, hs) e =
    cut_at_double_colon_cons c (cs ++ rest) h (cut_at_double_colon-Lacks cs rest hs e)

cut_at_double_colon_absent : (text : Text) → Lacks b':' text → cut_at_double_colon text ≡ none
cut_at_double_colon_absent [] h = refl
cut_at_double_colon_absent (c ∷ cs) (h, hs) =
    cut_at_double_colon_cons c cs h (cut_at_double_colon_absent cs hs)

-- What follows one `::` at the beginning.
read_after_double_colon :
    (right : Text)
    → cut_at_double_colon right ≡ none
    → read_undotted (some (b':' ∷ b':' ∷ right)) ≡ read_all (filled [] (hextets right))
read_after_double_colon right e = rw (read_undotted, e) refl

cut_at_double_colon_single :
    (text : Text)
    → Lacks b':' text
    → cut_at_double_colon text ≡ none
    → cut_at_double_colon (b':' ∷ text) ≡ none
cut_at_double_colon_single [] h e = refl
cut_at_double_colon_single (c ∷ cs) (h, hs) e = rw (e, h) refl

cut_at_double_colon_before :
    (text rest : Text)
    → Lacks b':' text
    → 1 ≤ length text
    → cut_at_double_colon (text ++ rest) ≡ none
    → cut_at_double_colon (b':' ∷ (text ++ rest)) ≡ none
cut_at_double_colon_before [] rest h some_text e = absurd (omega arith)
cut_at_double_colon_before (c ∷ cs) rest (h, hs) some_text e = rw (e, h) refl

hex_text-nonempty : (n : ℕ) → 1 ≤ length (hex_text n)
hex_text-nonempty n = ground arith

module _ (high low : ℕ) (high_fits : high < 65_536) (low_fits : low < 65_536) where
  abbrev pair_text : Text
  pair_text = hex_text high ++ b':' ∷ hex_text low

  low_undoubled : cut_at_double_colon (hex_text low) ≡ none
  low_undoubled = cut_at_double_colon_absent (hex_text low) (hex_text-Lacks low low_fits)

  pair_undoubled : cut_at_double_colon (codes "ffff:" ++ pair_text) ≡ none
  pair_undoubled =
      cut_at_double_colon-Lacks (codes "ffff") (b':' ∷ pair_text) (refl, (refl, (refl, (refl, tt))))
        (cut_at_double_colon_before (hex_text high) (b':' ∷ hex_text low)
          (hex_text-Lacks high high_fits) (hex_text-nonempty high)
          (cut_at_double_colon-Lacks (hex_text high) (b':' ∷ hex_text low)
            (hex_text-Lacks high high_fits)
            (cut_at_double_colon_single (hex_text low) (hex_text-Lacks low low_fits)
              low_undoubled)))

  pair_hextets :
      hextets (codes "ffff:" ++ pair_text) ≡ codes "ffff" ∷ hex_text high ∷ hex_text low ∷ []
  pair_hextets = cc (
    parts_of-append b':' (codes "ffff") pair_text (refl, (refl, (refl, (refl, tt)))),
    parts_of-append b':' (hex_text high) (hex_text low) (hex_text-Lacks high high_fits),
    parts_of-Lacks b':' (hex_text low) (hex_text-Lacks low low_fits),
  )

  pair_read :
      read_all (filled [] (codes "ffff" ∷ hex_text high ∷ hex_text low ∷ []))
      ≡ some ((65_535 * 65_536 + high) * 65_536 + low)
  pair_read =
      rw
        (
          is_hextet-hex_text high high_fits,
          is_hextet-hex_text low low_fits,
          read_from-hex_text high high_fits,
          read_from-hex_text low low_fits,
        )
        refl

  mapped_read :
      read_undotted (some (codes "::ffff:" ++ pair_text))
      ≡ some ((65_535 * 65_536 + high) * 65_536 + low)
  mapped_read =
      read_after_double_colon (codes "ffff:" ++ pair_text) pair_undoubled
      ∙ (ap (λ parts. read_all (filled [] parts)) pair_hextets ∙ pair_read)

any-append : (text rest : Text) (mark : ℕ) → any (λ c. c == mark) (text ++ mark ∷ rest) ≡ true
any-append [] rest mark = ground arith
any-append (c ∷ cs) rest mark = ground (arith, any-append cs rest mark)

-- `::ffff:` before a text that has no blank and no colon, but a dot, and that is read as an IPv4
-- address.
module _ (tail : Text) (no_colon : Lacks b':' tail) (no_blank : NoBlank tail)
    (dot : any (λ c. c == b'.') tail ≡ true) (value : ℕ) (parsed : parse_ipv4 tail ≡ some value)
    (fits : value < 4_294_967_296) where
  undotted :
      without_dots (codes "::ffff:" ++ tail) (cut_at_last b':' (codes "::ffff:" ++ tail))
      ≡ with_hextets (codes "::ffff:") (parse_ipv4 tail)
  undotted = rw (cut_at_last-Lacks b':' tail no_colon, dot) refl

  same_value :
      (65_535 * 65_536 + value / 65_536 % 65_536) * 65_536 + value % 65_536
      ≡ 65_535 * 4_294_967_296 + value
  same_value = omega arith

  -- An IPv4 address behind `::ffff:` is read as the IPv4-mapped address.
  pub parse_ipv6_mapped :
      parse_ipv6 (codes "::ffff:" ++ tail) ≡ some (65_535 * 4_294_967_296 + value)
  unfolding parse_ipv6
  parse_ipv6_mapped = cc (
    trim-NoBlank (codes "::ffff:" ++ tail)
        (refl, (refl, (refl, (refl, (refl, (refl, (refl, no_blank))))))),
    ap read_undotted undotted,
    ap (λ read. read_undotted (with_hextets (codes "::ffff:") read)) parsed,
    mapped_read (value / 65_536 % 65_536) (value % 65_536) (omega arith) (omega arith),
    same_value,
  )
