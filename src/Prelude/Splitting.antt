-- ===== src/Prelude/Splitting.antt =====
-- Laws of the operations on texts: what has no blank is not trimmed, and a text is split and cut at the
-- separators that it shows.
use Prim.Native.Nat.{ℕ}
use mathlib.Core.Path.{◌≡◌, refl}
use mathlib.Core.Bool.{true, false}
use mathlib.Core.Option.{none}
use mathlib.Core.List.{List, [], ◌∷◌, ◌++◌}
use native.Mathlib.Omega.{arith}
use railfog.Prelude.Tests.{◌==◌}
use railfog.Prelude.Lists.{All, any, length, drop}
use railfog.Prelude.Codes.{Text}
use railfog.Prelude.Texts.{
  includes, starts_with, is_blank, trim, trim_start, trim_end, split_on, parts_of, cut_at,
  cut_at_last,
}

-- `text` has no `mark`, and no blank.
abbrev pub Lacks : (mark : ℕ) → Text → Type 0
Lacks mark text = All (λ c. (c == mark) ≡ false) text

abbrev pub NoBlank : Text → Type 0
NoBlank text = All (λ c. is_blank c ≡ false) text

pub All-mono {ℓ κ λ'} :
    {A : Type ℓ} {P : A → Type κ} {Q : A → Type λ'}
    → ((x : A) → P x → Q x)
    → (xs : List A) → All P xs
    → All Q xs
All-mono f [] h = tt
All-mono f (x ∷ xs) (h, hs) = (f x h, All-mono f xs hs)

pub All-append {ℓ κ} :
    {A : Type ℓ} (P : A → Type κ) (xs ys : List A) → All P xs → All P ys → All P (xs ++ ys)
All-append P [] ys h k = k
All-append P (x ∷ xs) ys (h, hs) k = (h, All-append P xs ys hs k)

trim_start-NoBlank : (text : Text) → NoBlank text → trim_start text ≡ text
trim_start-NoBlank [] h = refl
trim_start-NoBlank (c ∷ cs) (h, hs) = rw h refl

trim_end-NoBlank : (text : Text) → NoBlank text → trim_end text ≡ text
trim_end-NoBlank [] h = refl
trim_end-NoBlank (c ∷ cs) (h, hs) = rw (h, trim_end-NoBlank cs hs) refl

pub trim-NoBlank : (text : Text) → NoBlank text → trim text ≡ text
trim-NoBlank text h = rw (trim_start-NoBlank text h) (trim_end-NoBlank text h)

pub parts_of-Lacks : (mark : ℕ) (text : Text) → Lacks mark text → parts_of mark text ≡ text ∷ []
parts_of-Lacks mark [] h = refl
parts_of-Lacks mark (c ∷ cs) (h, hs) = ground (arith, parts_of-Lacks mark cs hs)

split_on-append :
    (mark : ℕ) (text rest : Text)
    → Lacks mark text
    → split_on mark (text ++ mark ∷ rest) ≡ (text, parts_of mark rest)
split_on-append mark [] rest h = ground arith
split_on-append mark (c ∷ cs) rest (h, hs) = rw (split_on-append mark cs rest hs, h) refl

pub parts_of-append :
    (mark : ℕ) (text rest : Text)
    → Lacks mark text
    → parts_of mark (text ++ mark ∷ rest) ≡ text ∷ parts_of mark rest
parts_of-append mark text rest h = rw (split_on-append mark text rest h) refl

pub any-Lacks : (mark : ℕ) (text : Text) → Lacks mark text → any (λ c. c == mark) text ≡ false
any-Lacks mark [] h = refl
any-Lacks mark (c ∷ cs) (h, hs) = rw (h, any-Lacks mark cs hs) refl

pub cut_at-Lacks : (mark : ℕ) (text : Text) → Lacks mark text → cut_at mark text ≡ none
cut_at-Lacks mark [] h = refl
cut_at-Lacks mark (c ∷ cs) (h, hs) = rw (cut_at-Lacks mark cs hs, h) refl

pub cut_at_last-Lacks : (mark : ℕ) (text : Text) → Lacks mark text → cut_at_last mark text ≡ none
cut_at_last-Lacks mark [] h = refl
cut_at_last-Lacks mark (c ∷ cs) (h, hs) = rw (cut_at_last-Lacks mark cs hs, h) refl

pub starts_with-split :
    (prefix text : Text)
    → starts_with prefix text ≡ true
    → prefix ++ drop (length prefix) text ≡ text
starts_with-split [] text e = refl
starts_with-split (c ∷ cs) [] e = absurd cc
starts_with-split (c ∷ cs) (d ∷ ds) e = ground (arith, starts_with-split cs ds)

abbrev pub LacksSlash : Text → Type 0
LacksSlash id = includes b'/' id ≡ false

-- A text without a slash before a slash is read back.
pub split_at_slash :
    (xs ys rest rest' : Text)
    → LacksSlash xs
    → LacksSlash ys
    → xs ++ b'/' ∷ rest ≡ ys ++ b'/' ∷ rest'
    → (xs ≡ ys) × (rest ≡ rest')
split_at_slash [] [] rest rest' lacks lacks' e = (refl, cc)
split_at_slash [] (y ∷ ys) rest rest' lacks lacks' e = absurd (grind arith)
split_at_slash (x ∷ xs) [] rest rest' lacks lacks' e = absurd (grind arith)
split_at_slash (x ∷ xs) (y ∷ ys) rest rest' lacks lacks' e =
    let (same, after) = split_at_slash xs ys rest rest' (ground arith) (ground arith) cc in
    (cc, after)
