-- ===== src/Prelude/Texts.antt =====
-- What the code asks of JavaScript's strings: `trim`, `split`, `indexOf`, the classes of characters in
-- regular expressions, and `parseInt`, all of ASCII text.
use Prim.Native.Nat.{ℕ, ◌+◌, ◌-◌, ◌*◌}
use mathlib.Core.Bool.{Bool, true, false, ◌&&◌, ◌||◌}
use mathlib.Core.Option.{Option, none, some}
use mathlib.Core.List.{List, [], ◌∷◌}
use railfog.Prelude.Tests.{leb, ◌==◌, if◌then◌else◌}
use railfog.Prelude.Lists.{any}
use railfog.Prelude.Codes.{Text}

abbrev pub is_blank : ℕ → Bool
is_blank c = c == 32 || (leb 9 c && leb c 13)

abbrev pub trim_start : Text → Text
trim_start [] = []
trim_start (c ∷ cs) = if is_blank c then trim_start cs else c ∷ cs

abbrev pub is_empty : Text → Bool
is_empty [] = true
is_empty (c ∷ cs) = false

abbrev pub trim_end : Text → Text
trim_end [] = []
trim_end (c ∷ cs) = let rest = trim_end cs in if is_blank c && is_empty rest then [] else c ∷ rest

abbrev pub trim : Text → Text
trim cs = trim_end (trim_start cs)

abbrev pub upper : ℕ → ℕ
upper c = if leb 97 c && leb c 122 then c - 32 else c

abbrev pub lower : ℕ → ℕ
lower c = if leb 65 c && leb c 90 then c + 32 else c

-- `text.includes(c)`, of one unit.
abbrev pub includes : ℕ → Text → Bool
includes c = any (λ x. x == c)

-- `text.includes("..")`
abbrev pub includes_dots : Text → Bool
includes_dots [] = false
includes_dots (c ∷ []) = false
includes_dots (c ∷ d ∷ cs) = (c == b'.' && d == b'.') || includes_dots (d ∷ cs)

abbrev pub starts_with : (prefix text : Text) → Bool
starts_with [] text = true
starts_with (c ∷ cs) [] = false
starts_with (c ∷ cs) (d ∷ ds) = c == d && starts_with cs ds

-- `text.includes(part)`
abbrev pub includes_text : (part text : Text) → Bool
includes_text part [] = is_empty part
includes_text part (c ∷ cs) = starts_with part (c ∷ cs) || includes_text part cs

abbrev pub is_digit : ℕ → Bool
is_digit c = leb b'0' c && leb c b'9'

abbrev pub is_octal : ℕ → Bool
is_octal c = leb b'0' c && leb c b'7'

abbrev pub is_hex : ℕ → Bool
is_hex c = is_digit c || ((leb b'a' c && leb c b'f') || (leb b'A' c && leb c b'F'))

abbrev pub digit_value : ℕ → ℕ
digit_value c = if leb b'a' c then c - 87 else if leb b'A' c then c - 55 else c - b'0'

-- The number that digits spell in a base, after the number that those before them spell.
abbrev pub read_from : (base : ℕ) → Text → ℕ → ℕ
read_from base [] n = n
read_from base (c ∷ cs) n = read_from base cs (n * base + digit_value c)

-- `text.split(separator)`: the first part and the others.
abbrev pub split_on : (separator : ℕ) → Text → Text × List Text
split_on separator [] = ([], [])
split_on separator (c ∷ cs) =
    let (part, parts) = split_on separator cs in
    if c == separator then ([], part ∷ parts) else (c ∷ part, parts)

abbrev pub parts_of : (separator : ℕ) → Text → List Text
parts_of separator text = let (part, parts) = split_on separator text in part ∷ parts

abbrev pub onto {ℓ} : {A : Type ℓ} → ℕ → Option (Text × A) → Option (Text × A)
onto c none = none
onto c (some (before, after)) = some (c ∷ before, after)

-- What stands before the first `mark` and after it.
abbrev pub cut_at : (mark : ℕ) → Text → Option (Text × Text)
cut_at mark [] = none
cut_at mark (c ∷ cs) =
    let later = cut_at mark cs in if c == mark then some ([], cs) else onto c later

-- What stands up to the last `mark`, with it, and after it.
abbrev pub cut_at_last : (mark : ℕ) → Text → Option (Text × Text)
cut_at_last mark [] = none
cut_at_last mark (c ∷ cs) = elim (cut_at_last mark cs) [
  | some (before, after) ↦ some (c ∷ before, after)
  | none ↦ if c == mark then some (c ∷ [], cs) else none
]

abbrev pub take_digits : Text → Text
take_digits [] = []
take_digits (c ∷ cs) = let rest = take_digits cs in if is_digit c then c ∷ rest else []

-- `parseInt(text, 10)` of what a sign stands before: none is `NaN`.
abbrev unsigned : (negative : Bool) → Text → Option (Bool × ℕ)
unsigned negative [] = none
unsigned negative (c ∷ cs) = some (negative, read_from 10 (c ∷ cs) 0)

abbrev after_sign : Text → Option (Bool × ℕ)
after_sign [] = none
after_sign (c ∷ cs) =
    if c == b'-'
    then unsigned true (take_digits cs)
    else if c == b'+'
    then unsigned false (take_digits cs)
    else unsigned false (take_digits (c ∷ cs))

-- `parseInt(text, 10)`: whether a minus sign stands in front, and the number without it.
abbrev pub parse_int : Text → Option (Bool × ℕ)
parse_int text = after_sign (trim_start text)
