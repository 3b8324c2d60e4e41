-- ===== src/Providers/KeyPath.antt =====
-- providers/kv/sqlite-provider.ts: how a key, an array of strings, becomes the text `key_path`.
-- A segment is the list of its UTF-8 bytes, which is what `encodeURIComponent` escapes.
pub mod Decoding
pub mod Like
use railfog.Prelude.{
  ℕ, ◌+◌, ◌-◌, ◌/◌, ◌%◌, Bool, ◌||◌, ◌&&◌, List, [], ◌∷◌, ◌++◌, Text, ltb, leb, ◌==◌, if◌then◌else◌,
  length,
}
use railfog.Errors.{Result, ErrorCode, ok, throw_if, ◌>>◌}

abbrev pub slash : ℕ
slash = b'/'

abbrev pub percent : ℕ
percent = b'%'

abbrev pub underscore : ℕ
underscore = b'_'

-- The characters that `encodeURIComponent` leaves alone: letters, digits and - _ . ! ~ * ' ( ).
unfoldable pub is_unreserved : ℕ → Bool
is_unreserved c =
    (leb b'a' c && leb c b'z')
    || (leb b'A' c && leb c b'Z')
    || (leb b'0' c && leb c b'9')
    || c == b'-'
    || c == b'_'
    || c == b'.'
    || c == b'!'
    || c == b'~'
    || c == b'*'
    || c == 39
    || c == b'('
    || c == b')'

-- An upper-case hexadecimal digit.
unfoldable pub hex_digit : ℕ → ℕ
hex_digit d = if ltb d 10 then b'0' + d else b'A' + (d - 10)

unfoldable pub encode_byte : ℕ → Text
encode_byte c =
    if is_unreserved c then c ∷ [] else percent ∷ hex_digit (c / 16) ∷ hex_digit (c % 16) ∷ []

unfoldable pub encode_component : Text → Text
encode_component [] = []
encode_component (c ∷ seg) = encode_byte c ++ encode_component seg

-- `key.map(encodeURIComponent).join("/")`
unfoldable pub join_slash : List Text → Text
join_slash [] = []
join_slash (seg ∷ []) = encode_component seg
join_slash (seg ∷ next ∷ segs) = encode_component seg ++ slash ∷ join_slash (next ∷ segs)

unfoldable pub encode_key_path : List Text → Text
unfolding join_slash
encode_key_path [] = []
encode_key_path (seg ∷ segs) = join_slash (seg ∷ segs) ++ slash ∷ []

unfoldable pub byte_length : List Text → ℕ
byte_length [] = 0
byte_length (seg ∷ segs) = length seg + byte_length segs

-- KV-4: at most 32 segments and 512 bytes.
unfoldable pub validate_key : List Text → Result (Unit {0})
unfolding byte_length
validate_key key = do
  throw_if (ltb 32 (length key)) ErrorCode.validation_failed
  throw_if (ltb 512 (byte_length key)) ErrorCode.validation_failed
  ok tt
