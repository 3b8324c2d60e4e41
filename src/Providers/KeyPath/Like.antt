-- ===== src/Providers/KeyPath/Like.antt =====
-- providers/kv/sqlite-provider.ts: `list` selects rows by `key_path LIKE prefix || '%'`. SQLite's
-- LIKE is a parameter; what is assumed of it is its documentation, as the relation `LikeMatches`.
use mathlib.Core.List.{append-nil}
use native.Mathlib.Decide.{ℕ_discrete}
use railfog.Prelude.{ℕ, ◌+◌, ◌≡◌, ◌≢◌, refl, ◌&&◌, [], ◌∷◌, ◌++◌, Text, leb, if◌then◌else◌, subst}
use railfog.Providers.KeyPath.{percent, underscore}

-- LIKE ignores the case of ASCII letters.
abbrev pub fold_case : ℕ → ℕ
fold_case c = if leb b'A' c && leb c b'Z' then c + 32 else c

-- A percent sign stands for any text, an underscore for one character, another character for
-- itself.
pub data LikeMatches : Text → Text → Type 0 where
  done : LikeMatches [] []
  any_text : {p s : Text} (t : Text) → LikeMatches p s → LikeMatches (percent ∷ p) (t ++ s)
  any_one : {p s : Text} (c : ℕ) → LikeMatches p s → LikeMatches (underscore ∷ p) (c ∷ s)
  literal :
      {p s : Text} (c d : ℕ)
      → fold_case c ≡ fold_case d
      → c ≢ percent
      → LikeMatches p s
      → LikeMatches (c ∷ p) (d ∷ s)

LikeMatches-any : (s : Text) → LikeMatches (percent ∷ []) s
LikeMatches-any s = subst (LikeMatches (percent ∷ [])) (append-nil s) (any_text s done)

-- A path is matched by itself, its percent signs and underscores included.
pub LikeMatches-self : (path s : Text) → LikeMatches (path ++ percent ∷ []) (path ++ s)
LikeMatches-self [] s = LikeMatches-any s
LikeMatches-self (c ∷ path) s = elim (ℕ_discrete c percent) [
  | yes e ↦ rw e (any_text (percent ∷ []) (LikeMatches-self path s))
  | no ne ↦ literal c c refl ne (LikeMatches-self path s)
]

-- An underscore in the pattern's path lets through any character in its place.
pub LikeMatches-underscore :
    (front back s : Text) (c : ℕ)
    → LikeMatches ((front ++ underscore ∷ back) ++ percent ∷ []) ((front ++ c ∷ back) ++ s)
LikeMatches-underscore [] back s c = any_one c (LikeMatches-self back s)
LikeMatches-underscore (d ∷ front) back s c = elim (ℕ_discrete d percent) [
  | yes e ↦ rw e (any_text (percent ∷ []) (LikeMatches-underscore front back s c))
  | no ne ↦ literal d d refl ne (LikeMatches-underscore front back s c)
]
