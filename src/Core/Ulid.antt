-- ===== src/Core/Ulid.antt =====
-- packages/core/id/ulid.ts. `>>`, `<<`, `&` and `|` of bytes are written as quotients, products,
-- remainders and sums of parts that share no bit. The clock and the random bytes are arguments.
pub mod Order
pub mod Examples
use railfog.Prelude.{
  ℕ, zero, suc, ◌+◌, ◌-◌, ◌*◌, ◌/◌, ◌%◌, Bool, ◌&&◌, ◌||◌, List, [], ◌∷◌, ◌++◌, Text, ◌==◌, ltb,
  leb, if◌then◌else◌, length, all,
}

-- `ENCODING[d]`: the digits, and the letters but I, L, O and U.
unfoldable pub encoding : ℕ → ℕ
encoding d =
    if ltb d 10
    then b'0' + d
    else if ltb d 18
    then b'A' + (d - 10)
    else if ltb d 20
    then b'J' + (d - 18)
    else if ltb d 22
    then b'M' + (d - 20)
    else if ltb d 27
    then b'P' + (d - 22)
    else b'V' + (d - 27)

-- The `for` loop of `rounds` rounds, with the characters so far.
unfoldable pub time_from : (rounds t : ℕ) → Text → Text
time_from zero t time_chars = time_chars
time_from (suc n) t time_chars = time_from n (t / 32) (encoding (t % 32) ∷ time_chars)

unfoldable pub rand_half : (b0 b1 b2 b3 b4 : ℕ) → Text
rand_half b0 b1 b2 b3 b4 =
    encoding (b0 / 8 % 32)
    ∷ encoding (b0 % 8 * 4 + b1 / 64)
    ∷ encoding (b1 / 2 % 32)
    ∷ encoding (b1 % 2 * 16 + b2 / 16)
    ∷ encoding (b2 % 16 * 2 + b3 / 128)
    ∷ encoding (b3 / 4 % 32)
    ∷ encoding (b3 % 4 * 8 + b4 / 32)
    ∷ encoding (b4 % 32)
    ∷ []

-- Ten bytes of `random()`.
pub record RandomBytes : Type 0 where
  pub b0 : ℕ
  pub b1 : ℕ
  pub b2 : ℕ
  pub b3 : ℕ
  pub b4 : ℕ
  pub b5 : ℕ
  pub b6 : ℕ
  pub b7 : ℕ
  pub b8 : ℕ
  pub b9 : ℕ

unfoldable pub generate_ulid : (now : ℕ) → RandomBytes → Text
generate_ulid now r =
    time_from 10 now []
    ++ (rand_half r.b0 r.b1 r.b2 r.b3 r.b4 ++ rand_half r.b5 r.b6 r.b7 r.b8 r.b9)

-- A character of the class in `ULID_REGEX`.
abbrev pub is_ulid_character : ℕ → Bool
is_ulid_character c =
    (leb b'0' c && leb c b'9')
    || ((leb b'A' c && leb c b'H')
        || ((c == b'J' || c == b'K')
            || ((c == b'M' || c == b'N')
                || ((leb b'P' c && leb c b'T') || (leb b'V' c && leb c b'Z')))))

unfoldable pub is_valid_ulid : Text → Bool
is_valid_ulid value = length value == 26 && all is_ulid_character value
