-- ===== src/Runtime/Ipv6Address.antt =====
-- runtime/sandbox/egress-ip-blocker.ts, `parseIPv6`. `value << 16n |` a hextet is their sum in the
-- base 2 ^ 16.
pub mod Embedding
use railfog.Prelude.{
  ℕ, zero, suc, ◌+◌, ◌-◌, ◌*◌, ◌/◌, ◌%◌, ◌^◌, Bool, true, false, not, ◌&&◌, ◌||◌, Option, none,
  some, List, [], ◌∷◌, ◌++◌, map, Text, codes, ◌==◌, ltb, leb, if◌then◌else◌, length, any, all,
  trim, is_digit, is_octal, is_hex, read_from, parts_of, cut_at, cut_at_last, parse_int, onto,
}
use railfog.Runtime.Ipv4Address.{parse_ipv4}

-- `n.toString(16)` of at most 16 bits.
unfoldable pub hextet_digit : ℕ → ℕ
hextet_digit n = if ltb n 10 then b'0' + n else 87 + n

abbrev pub nibbles : ℕ → List ℕ
nibbles n =
    if ltb n 16
    then n ∷ []
    else if ltb n 256
    then n / 16 ∷ n % 16 ∷ []
    else if ltb n 4096
    then n / 256 ∷ n / 16 % 16 ∷ n % 16 ∷ []
    else n / 4096 ∷ n / 256 % 16 ∷ n / 16 % 16 ∷ n % 16 ∷ []

abbrev pub hex_text : ℕ → Text
hex_text n = map hextet_digit (nibbles n)

-- The dotted tail of an IPv6 address as two hextets.
abbrev pub with_hextets : Text → Option ℕ → Option Text
with_hextets before none = none
with_hextets before (some value) =
    some (before ++ hex_text (value / 65_536 % 65_536) ++ b':' ∷ hex_text (value % 65_536))

abbrev pub without_dots : Text → Option (Text × Text) → Option Text
without_dots str none = none
without_dots str (some (before, tail)) =
    if any (λ c. c == b'.') tail then with_hextets before (parse_ipv4 tail) else some str

-- What stands before the first `::` and after it.
abbrev pub cut_at_double_colon : Text → Option (Text × Text)
cut_at_double_colon [] = none
cut_at_double_colon (c ∷ cs) = double_from c cs
  where
    double_from : ℕ → Text → Option (Text × Text)
    double_from c [] = none
    double_from c (d ∷ ds) =
        let later = double_from d ds in
        if c == b':' && d == b':' then some ([], ds) else onto c later

abbrev pub hextets : Text → List Text
hextets [] = []
hextets (c ∷ cs) = parts_of b':' (c ∷ cs)

abbrev pub zeros : ℕ → List Text
zeros zero = []
zeros (suc n) = codes "0" ∷ zeros n

abbrev pub filled : (left right : List Text) → Option (List Text)
filled left right =
    let total_specified = length left + length right in
    if ltb 7 total_specified then none else some (left ++ zeros (8 - total_specified) ++ right)

abbrev exactly_8 : List Text → Option (List Text)
exactly_8 parts = if length parts == 8 then some parts else none

-- With one `::`; a second one after it is refused.
abbrev around : (left right : Text) → Option (Text × Text) → Option (List Text)
around left right none = filled (hextets left) (hextets right)
around left right (some _) = none

abbrev pub full_hextets : Text → Option (Text × Text) → Option (List Text)
full_hextets str none = exactly_8 (parts_of b':' str)
full_hextets str (some (left, right)) = around left right (cut_at_double_colon right)

abbrev pub is_hextet : Text → Bool
is_hextet [] = false
is_hextet (c ∷ cs) = all is_hex (c ∷ cs) && leb (length (c ∷ cs)) 4

-- The `for` loop over the hextets, with the number so far.
abbrev pub read_hextets : List Text → ℕ → Option ℕ
read_hextets [] value = some value
read_hextets (hextet ∷ rest) value =
    let result = read_hextets rest (value * 65_536 + read_from 16 hextet 0) in
    if is_hextet hextet then result else none

abbrev pub read_all : Option (List Text) → Option ℕ
read_all none = none
read_all (some parts) = read_hextets parts 0

abbrev pub read_undotted : Option Text → Option ℕ
read_undotted none = none
read_undotted (some str) = read_all (full_hextets str (cut_at_double_colon str))

unfoldable pub parse_ipv6 : Text → Option ℕ
parse_ipv6 input = let str = trim input in read_undotted (without_dots str (cut_at_last b':' str))
