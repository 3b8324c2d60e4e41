-- ===== src/Core/Ulid/Order.antt =====
-- packages/core/id/ulid.ts: identifiers of later times are greater, and what is generated is valid.
use railfog.Prelude.{
  length-append, All-append, All, ℕ, zero, suc, ◌+◌, ◌*◌, ◌/◌, ◌%◌, ◌^◌, ◌<◌, ◌≡◌, refl, ◌∙◌, true,
  false, [], ◌∷◌, ◌++◌, Text, length, all, arith, text_leb, inl, inr, ◌⊎◌,
}
use railfog.Core.Ulid.{
  encoding, time_from, rand_half, RandomBytes, generate_ulid, is_ulid_character, is_valid_ulid,
}

encoding_mono : (a b : ℕ) → a < b → b < 32 → encoding a < encoding b
unfolding encoding
encoding_mono a b h k = ground arith

time_from-append :
    (n t : ℕ) (acc rest : Text) → time_from n t acc ++ rest ≡ time_from n t (acc ++ rest)
unfolding time_from
time_from-append zero t acc rest = refl
time_from-append (suc n) t acc rest = time_from-append n (t / 32) (encoding (t % 32) ∷ acc) rest

-- Characters of the same time in front do not matter.
same_time :
    (n t : ℕ) (acc acc' : Text)
    → text_leb (time_from n t acc) (time_from n t acc') ≡ text_leb acc acc'
unfolding time_from text_leb
same_time zero t acc acc' = refl
same_time (suc n) t acc acc' =
    same_time n (t / 32) (encoding (t % 32) ∷ acc) (encoding (t % 32) ∷ acc')
    ∙ same_head (encoding (t % 32)) acc acc'
  where
    same_head : (c : ℕ) (s u : Text) → text_leb (c ∷ s) (c ∷ u) ≡ text_leb s u
    same_head c s u = ground arith

later_head : (c d : ℕ) (s u : Text) → c < d → text_leb (d ∷ s) (c ∷ u) ≡ false
unfolding text_leb
later_head c d s u h = ground arith

digits_cases : (t t' : ℕ) → t < t' → (t / 32 < t' / 32) ⊎ ((t / 32 ≡ t' / 32) × (t % 32 < t' % 32))
digits_cases t t' lt = ground arith

-- The times that n characters can spell.
abbrev capacity : ℕ → ℕ
capacity zero = 1
capacity (suc n) = capacity n * 32

quotient_fits : (t n : ℕ) → t < capacity (suc n) → t / 32 < capacity n
quotient_fits t n h = omega arith

-- Of two times that fit in the characters, the later one is not before the earlier one, whatever
-- follows.
later_time :
    (n t t' : ℕ) (acc acc' : Text)
    → t < t'
    → t' < capacity n
    → text_leb (time_from n t' acc') (time_from n t acc) ≡ false
unfolding time_from
later_time zero t t' acc acc' h k = absurd (omega arith)
later_time (suc n) t t' acc acc' h k = elim (digits_cases t t' h) [
  | inl above ↦ later_time n (t / 32) (t' / 32) _ _ above (quotient_fits t' n k)
  | inr (same, below) ↦ rw same (
      same_time n (t' / 32) _ _
      ∙ later_head (encoding (t % 32)) (encoding (t' % 32)) acc' acc
          (encoding_mono _ _ below (omega arith)))
]

-- Identifiers sort by their times: the one of a later time, below 2 ^ 50 milliseconds, is not at or
-- before the one of an earlier time, whatever the random bytes are.
pub generate_ulid_ordered :
    (t t' : ℕ) (r r' : RandomBytes)
    → t < t'
    → t' < 2 ^ 50
    → text_leb (generate_ulid t' r') (generate_ulid t r) ≡ false
unfolding generate_ulid
generate_ulid_ordered t t' r r' h k =
    rw (time_from-append 10 t [] _, time_from-append 10 t' [] _) (later_time 10 t t' _ _ h k)

-- Ten bytes.
abbrev pub AreBytes : RandomBytes → Type 0
AreBytes r =
    (r.b0 < 256)
    × (r.b1 < 256)
    × (r.b2 < 256)
    × (r.b3 < 256)
    × (r.b4 < 256)
    × (r.b5 < 256)
    × (r.b6 < 256)
    × (r.b7 < 256)
    × (r.b8 < 256)
    × (r.b9 < 256)

abbrev UlidCharacter : ℕ → Type 0
UlidCharacter c = is_ulid_character c ≡ true

encoding-UlidCharacter : (d : ℕ) → d < 32 → UlidCharacter (encoding d)
unfolding encoding
encoding-UlidCharacter d h = ground arith

time_from-UlidCharacters :
    (n t : ℕ) (acc : Text) → All UlidCharacter acc → All UlidCharacter (time_from n t acc)
unfolding time_from
time_from-UlidCharacters zero t acc h = h
time_from-UlidCharacters (suc n) t acc h =
    time_from-UlidCharacters n (t / 32) (encoding (t % 32) ∷ acc)
      (encoding-UlidCharacter (t % 32) (omega arith), h)

length-time_from : (n t : ℕ) (acc : Text) → length (time_from n t acc) ≡ n + length acc
unfolding time_from
length-time_from zero t acc = omega arith
length-time_from (suc n) t acc = length-time_from n (t / 32) (encoding (t % 32) ∷ acc) ∙ omega arith

rand_half-UlidCharacters :
    (b0 b1 b2 b3 b4 : ℕ)
    → b0 < 256
    → b1 < 256
    → b2 < 256
    → b3 < 256
    → b4 < 256
    → All UlidCharacter (rand_half b0 b1 b2 b3 b4)
unfolding rand_half
rand_half-UlidCharacters b0 b1 b2 b3 b4 h0 h1 h2 h3 h4 = (
  encoding-UlidCharacter _ (omega arith),
  (
    encoding-UlidCharacter _ (omega arith),
    (
      encoding-UlidCharacter _ (omega arith),
      (
        encoding-UlidCharacter _ (omega arith),
        (
          encoding-UlidCharacter _ (omega arith),
          (
            encoding-UlidCharacter _ (omega arith),
            (encoding-UlidCharacter _ (omega arith), (encoding-UlidCharacter _ (omega arith), tt)),
          ),
        ),
      ),
    ),
  ),
)

length-generate_ulid : (now : ℕ) (r : RandomBytes) → length (generate_ulid now r) ≡ 26
unfolding generate_ulid rand_half
length-generate_ulid now r =
    rw
      (
        length-append (time_from 10 now [])
            (rand_half r.b0 r.b1 r.b2 r.b3 r.b4 ++ rand_half r.b5 r.b6 r.b7 r.b8 r.b9),
        length-time_from 10 now [],
      )
      refl

all-UlidCharacters : (text : Text) → All UlidCharacter text → all is_ulid_character text ≡ true
all-UlidCharacters [] h = refl
all-UlidCharacters (c ∷ cs) (h, hs) = rw (h, all-UlidCharacters cs hs) refl

-- What is generated, at any time and of any ten bytes, is accepted by `isValidUlid`.
pub is_valid_ulid-generate_ulid :
    (now : ℕ) (r : RandomBytes) → AreBytes r → is_valid_ulid (generate_ulid now r) ≡ true
unfolding is_valid_ulid generate_ulid
is_valid_ulid-generate_ulid now r (h0, h1, h2, h3, h4, h5, h6, h7, h8, h9) =
    rw (long, all-UlidCharacters _ characters) refl
  where
    first : All UlidCharacter (rand_half r.b0 r.b1 r.b2 r.b3 r.b4)
    first = rand_half-UlidCharacters r.b0 r.b1 r.b2 r.b3 r.b4 h0 h1 h2 h3 h4

    second : All UlidCharacter (rand_half r.b5 r.b6 r.b7 r.b8 r.b9)
    second = rand_half-UlidCharacters r.b5 r.b6 r.b7 r.b8 r.b9 h5 h6 h7 h8 h9

    characters : All UlidCharacter (generate_ulid now r)
    characters =
        All-append UlidCharacter (time_from 10 now []) _ (time_from-UlidCharacters 10 now [] tt)
          (All-append UlidCharacter (rand_half r.b0 r.b1 r.b2 r.b3 r.b4) _ first second)

    long : length (generate_ulid now r) ≡ 26
    long = length-generate_ulid now r
