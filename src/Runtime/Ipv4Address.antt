-- ===== src/Runtime/Ipv4Address.antt =====
-- runtime/sandbox/egress-ip-blocker.ts, `parseIPv4`: the forms of `inet_aton`. An address is the number
-- that its bits spell: `a << k` is `a * 2 ^ k`, and `|` of parts that share no bit is their sum.
-- `parseInt` of octal digits is exact here; the code's rounds numbers that are too large for an address
-- anyway, and throws from 2 ^ 1024 on. `trim` is that of ASCII text.
pub mod Printing
use railfog.Prelude.{
  ℕ, zero, suc, ◌+◌, ◌-◌, ◌*◌, ◌/◌, ◌%◌, ◌^◌, Bool, true, false, not, ◌&&◌, ◌||◌, Option, none,
  some, List, [], ◌∷◌, ◌++◌, map, Text, codes, ◌==◌, ltb, leb, if◌then◌else◌, length, any, all,
  trim, is_digit, is_octal, is_hex, read_from, parts_of, cut_at, cut_at_last, parse_int, onto,
}

abbrev pub ipv4_max : ℕ
ipv4_max = 4_294_967_295

-- One part of an IPv4 address: digits of a class in a base.
abbrev pub number : (ℕ → Bool) → (base : ℕ) → Text → Option ℕ
number belongs base [] = none
number belongs base (c ∷ cs) =
    if all belongs (c ∷ cs) then some (read_from base (c ∷ cs) 0) else none

-- What follows a leading 0.
abbrev pub after_zero : Text → Option ℕ
after_zero [] = some 0
after_zero (c ∷ cs) =
    if c == b'x' || c == b'X' then number is_hex 16 cs else number is_octal 8 (c ∷ cs)

abbrev pub parse_part : Text → Option ℕ
parse_part [] = none
parse_part (c ∷ cs) = if c == b'0' then after_zero cs else number is_digit 10 (c ∷ cs)

abbrev prepend : Option ℕ → Option (List ℕ) → Option (List ℕ)
prepend (some value) (some values) = some (value ∷ values)
prepend _ _ = none

-- The `for` loop over the parts, which ends at the first that it refuses.
abbrev pub parse_parts : List Text → Option (List ℕ)
parse_parts [] = some []
parse_parts (part ∷ parts) = prepend (parse_part part) (parse_parts parts)

abbrev pub combine : List ℕ → Option ℕ
combine (a ∷ b ∷ c ∷ d ∷ []) =
    if (ltb 255 a || ltb 255 b) || (ltb 255 c || ltb 255 d)
    then none
    else some (a * 16_777_216 + b * 65_536 + c * 256 + d)
combine (a ∷ b ∷ c ∷ []) =
    if (ltb 255 a || ltb 255 b) || ltb 65_535 c
    then none
    else some (a * 16_777_216 + b * 65_536 + c)
combine (a ∷ b ∷ []) = if ltb 255 a || ltb 16_777_215 b then none else some (a * 16_777_216 + b)
combine (a ∷ []) = if ltb ipv4_max a then none else some a
combine _ = none

abbrev pub combine_parsed : Option (List ℕ) → Option ℕ
combine_parsed none = none
combine_parsed (some values) = combine values

abbrev pub parse_split : List Text → Option ℕ
parse_split parts = if ltb 4 (length parts) then none else combine_parsed (parse_parts parts)

-- The empty text has one part, which is refused.
unfoldable pub parse_ipv4 : Text → Option ℕ
parse_ipv4 input = parse_split (parts_of b'.' (trim input))
