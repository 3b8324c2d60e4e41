-- ===== src/Providers/KeyPath/Decoding.antt =====
-- providers/kv/sqlite-provider.ts: the encoded key path can be read back, so that two keys never
-- share a row, and a path that begins with another path belongs to a key below the other's key.
use mathlib.Core.List.{append_assoc, append-nil}
use railfog.Prelude.{
  ℕ, ◌/◌, ◌%◌, ◌<◌, ◌≡◌, ◌↔◌, refl, sym, ap, ◌∙◌, ◌≢◌, true, List, [], ◌∷◌, ◌++◌, Text, arith, All,
  Bool-cases, inl, inr,
}
use railfog.Providers.KeyPath.{
  slash, percent, is_unreserved, hex_digit, encode_byte, encode_component, join_slash,
  encode_key_path,
}

abbrev pub IsByte : ℕ → Type 0
IsByte c = c < 256

-- Every segment of the key is a list of bytes.
abbrev pub IsKey : List Text → Type 0
IsKey key = All (λ seg. All IsByte seg) key

unreserved-ne-percent : (c : ℕ) → is_unreserved c ≡ true → c ≢ percent
unfolding is_unreserved
unreserved-ne-percent c h e = let h' : is_unreserved percent ≡ true = rw e at h in cc

unreserved-ne-slash : (c : ℕ) → is_unreserved c ≡ true → c ≢ slash
unfolding is_unreserved
unreserved-ne-slash c h e = let h' : is_unreserved slash ≡ true = rw e at h in cc

hex_digit-inj : (a b : ℕ) → a < 16 → b < 16 → hex_digit a ≡ hex_digit b → a ≡ b
unfolding hex_digit
hex_digit-inj a b h k e = ground arith

byte_of_digits : (c d : ℕ) → c / 16 ≡ d / 16 → c % 16 ≡ d % 16 → c ≡ d
byte_of_digits c d h k = omega arith

-- The encodings of two bytes cannot be confused, whatever follows them.
encode_byte-prefix :
    (c d : ℕ) (s t : Text)
    → IsByte c
    → IsByte d
    → encode_byte c ++ s ≡ encode_byte d ++ t
    → (c ≡ d) × (s ≡ t)
unfolding encode_byte
encode_byte-prefix c d s t hc hd e = elim (Bool-cases (is_unreserved c)) [
  | inl plain ↦ elim (Bool-cases (is_unreserved d)) [
    | inl plain' ↦ let e' = rw (plain, plain', encode_byte) at e in (cc, cc)
    | inr coded' ↦
        let e' = rw (plain, coded', encode_byte) at e in absurd (unreserved-ne-percent c plain (cc))
  ]
  | inr coded ↦ elim (Bool-cases (is_unreserved d)) [
    | inl plain' ↦
        let e' = rw (coded, plain', encode_byte) at e in
        absurd (unreserved-ne-percent d plain' (cc))
    | inr coded' ↦
        let e' = rw (coded, coded', encode_byte) at e in
        let high = hex_digit-inj (c / 16) (d / 16) (omega arith) (omega arith) (cc) in
        let low = hex_digit-inj (c % 16) (d % 16) (omega arith) (omega arith) (cc) in
        (byte_of_digits c d high low, cc)
  ]
]

encode_byte-ne-slash : (c : ℕ) (s t : Text) → encode_byte c ++ s ≢ slash ∷ t
unfolding encode_byte
encode_byte-ne-slash c s t e = elim (Bool-cases (is_unreserved c)) [
  | inl plain ↦ let e' = rw (plain, encode_byte) at e in unreserved-ne-slash c plain (cc)
  | inr coded ↦ let e' = rw (coded, encode_byte) at e in cc
]

-- A segment ends at its slash.
encode_component-prefix :
    (seg seg' s t : Text)
    → All IsByte seg
    → All IsByte seg'
    → encode_component seg ++ slash ∷ s ≡ encode_component seg' ++ slash ∷ t
    → (seg ≡ seg') × (s ≡ t)
unfolding encode_component
encode_component-prefix [] [] s t h h' e = (refl, cc)
encode_component-prefix [] (d ∷ seg') s t h h' e =
    absurd (encode_byte-ne-slash d _ s (sym (e ∙ append_assoc (encode_byte d) _ _)))
encode_component-prefix (c ∷ seg) [] s t h h' e =
    absurd (encode_byte-ne-slash c _ t (sym (append_assoc (encode_byte c) _ _) ∙ e))
encode_component-prefix (c ∷ seg) (d ∷ seg') s t h h' e =
    let (same, rest) =
      encode_byte-prefix c d _ _ h.0 h'.0
        (sym (append_assoc (encode_byte c) _ _) ∙ (e ∙ append_assoc (encode_byte d) _ _)) in
    let (same', rest') = encode_component-prefix seg seg' s t h.1 h'.1 rest in (cc, rest')

-- The path by recursion: each segment, encoded, with its slash.
pub path_of : List Text → Text
path_of [] = []
path_of (seg ∷ segs) = encode_component seg ++ slash ∷ path_of segs

pub encode_key_path-path_of : (key : List Text) → encode_key_path key ≡ path_of key
unfolding encode_key_path path_of
encode_key_path-path_of [] = refl
encode_key_path-path_of (seg ∷ []) = refl
encode_key_path-path_of (seg ∷ next ∷ segs) =
    append_assoc (encode_component seg) (slash ∷ join_slash (next ∷ segs)) (slash ∷ [])
    ∙ ap (λ p. encode_component seg ++ slash ∷ p) (encode_key_path-path_of (next ∷ segs))

append-slash-ne-nil : (xs ys : Text) → xs ++ slash ∷ ys ≢ []
append-slash-ne-nil [] ys e = cc
append-slash-ne-nil (x ∷ xs) ys e = cc

pub path_of-append :
    (prefix below : List Text) → path_of prefix ++ path_of below ≡ path_of (prefix ++ below)
unfolding path_of
path_of-append [] below = refl
path_of-append (seg ∷ segs) below =
    append_assoc (encode_component seg) (slash ∷ path_of segs) (path_of below)
    ∙ ap (λ p. encode_component seg ++ slash ∷ p) (path_of-append segs below)

encode_component-append :
    (front back : Text)
    → encode_component (front ++ back) ≡ encode_component front ++ encode_component back
unfolding encode_component
encode_component-append [] back = refl
encode_component-append (c ∷ front) back =
    ap (λ p. encode_byte c ++ p) (encode_component-append front back)
    ∙ sym (append_assoc (encode_byte c) (encode_component front) (encode_component back))

-- An unreserved character of a key stands for itself in the path.
pub path_of-char :
    (above : List Text) (front back : Text) (segs : List Text) (c : ℕ)
    → is_unreserved c ≡ true
    → path_of (above ++ (front ++ c ∷ back) ∷ segs)
      ≡ (path_of above ++ encode_component front)
        ++ c ∷ (encode_component back ++ slash ∷ path_of segs)
unfolding path_of encode_component encode_byte
path_of-char above front back segs c plain =
    sym (path_of-append above ((front ++ c ∷ back) ∷ segs))
    ∙ (ap (λ p. path_of above ++ (p ++ slash ∷ path_of segs)) split
        ∙ (ap (λ p. path_of above ++ p) (append_assoc (encode_component front) _ _)
            ∙ sym (append_assoc (path_of above) (encode_component front) _)))
  where
    split :
        encode_component (front ++ c ∷ back) ≡ encode_component front ++ c ∷ encode_component back
    split =
        encode_component-append front (c ∷ back)
        ∙ ap (λ p. encode_component front ++ p) (rw (plain, encode_byte))

path_of-prefix :
    (prefix key : List Text) (rest : Text)
    → IsKey prefix
    → IsKey key
    → path_of prefix ++ rest ≡ path_of key
    → (below : List Text) × (key ≡ prefix ++ below) × (rest ≡ path_of below)
unfolding path_of
path_of-prefix [] key rest h h' e = (key, refl, e)
path_of-prefix (seg ∷ segs) [] rest h h' e = absurd (
    append-slash-ne-nil (encode_component seg) _
      (sym (append_assoc (encode_component seg) (slash ∷ path_of segs) rest) ∙ e))
path_of-prefix (seg ∷ segs) (seg' ∷ segs') rest h h' e =
    let (same, e') =
      encode_component-prefix seg seg' _ _ h.0 h'.0
        (sym (append_assoc (encode_component seg) (slash ∷ path_of segs) rest) ∙ e) in
    let (below, same', ends) = path_of-prefix segs segs' rest h.1 h'.1 e' in (below, cc, ends)

path_of-nil : (key : List Text) → path_of key ≡ [] → key ≡ []
unfolding path_of
path_of-nil [] e = refl
path_of-nil (seg ∷ segs) e = absurd (append-slash-ne-nil (encode_component seg) _ e)

-- One key's path begins with another key's path exactly when the first key lies below the second:
-- a listing by path prefix can cut no segment in two.
pub encode_key_path-prefix_iff :
    (prefix key : List Text)
    → IsKey prefix
    → IsKey key
    → ((rest : Text) × (encode_key_path prefix ++ rest ≡ encode_key_path key))
      ↔ ((below : List Text) × (key ≡ prefix ++ below))
encode_key_path-prefix_iff prefix key h h' = (to, from)
  where
    to :
        (rest : Text) × (encode_key_path prefix ++ rest ≡ encode_key_path key)
        → (below : List Text) × (key ≡ prefix ++ below)
    to (rest, e) =
        let (below, same, _) = path_of-prefix prefix key rest h h' (
          ap (λ p. p ++ rest) (sym (encode_key_path-path_of prefix))
          ∙ (e ∙ encode_key_path-path_of key)) in
        (below, same)

    from :
        (below : List Text) × (key ≡ prefix ++ below)
        → (rest : Text) × (encode_key_path prefix ++ rest ≡ encode_key_path key)
    from (below, same) = (
      path_of below,
      ap (λ p. p ++ path_of below) (encode_key_path-path_of prefix)
          ∙ (path_of-append prefix below
              ∙ (ap path_of (sym same) ∙ sym (encode_key_path-path_of key))),
    )

-- Two keys of bytes have the same path only if they are the same key.
pub encode_key_path_inj :
    (key key' : List Text)
    → IsKey key
    → IsKey key'
    → encode_key_path key ≡ encode_key_path key'
    → key ≡ key'
encode_key_path_inj key key' h h' e =
    let (below, same, ends) =
      path_of-prefix key key' [] h h'
        (append-nil _ ∙ (sym (encode_key_path-path_of key) ∙ (e ∙ encode_key_path-path_of key'))) in
    sym (same ∙ (ap (λ b. key ++ b) (path_of-nil below (sym ends)) ∙ append-nil key))
