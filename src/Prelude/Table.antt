-- ===== src/Prelude/Table.antt =====
-- A JavaScript `Map` with text keys, as the list of its entries in insertion order.
use mathlib.Core.Path.{◌≡◌, refl, sym}
use mathlib.Core.Logic.{inl, inr}
use mathlib.Core.Bool.{Bool}
use mathlib.Core.Option.{Option, none, some}
use mathlib.Core.List.{List, [], ◌∷◌}
use native.Mathlib.Omega.{arith}
use railfog.Prelude.Tests.{if◌then◌else◌, Bool-cases}
use railfog.Prelude.Lists.{filterb}
use railfog.Prelude.Codes.{Text, text_eq, text_eq_iff, text_eq_refl, text_eq_sound}

module _ {ℓ} {V : Type ℓ} where
  unfoldable pub find_entry : Text → List (Text × V) → Option V
  find_entry key [] = none
  find_entry key ((k, v) ∷ m) = if text_eq k key then some v else find_entry key m

  unfoldable pub put_entry : Text → V → List (Text × V) → List (Text × V)
  put_entry key v [] = (key, v) ∷ []
  put_entry key v ((k, w) ∷ m) = if text_eq k key then (k, v) ∷ m else (k, w) ∷ put_entry key v m

  unfoldable pub drop_entry : Text → List (Text × V) → List (Text × V)
  drop_entry key [] = []
  drop_entry key ((k, w) ∷ m) =
      let rest = drop_entry key m in if text_eq k key then rest else (k, w) ∷ rest

  pub find_entry-put_entry :
      (key other : Text) (v : V) (m : List (Text × V))
      → find_entry other (put_entry key v m)
        ≡ (if text_eq key other then some v else find_entry other m)
  unfolding find_entry put_entry
  find_entry-put_entry key other v [] = refl
  find_entry-put_entry key other v ((k, w) ∷ m) = ground (
    arith,
    find_entry-put_entry key other v m,
    text_eq_iff key other,
    text_eq_iff k key,
    text_eq_iff k other,
  )

  pub find_entry-drop_entry :
      (key other : Text) (m : List (Text × V))
      → find_entry other (drop_entry key m)
        ≡ (if text_eq key other then none else find_entry other m)
  unfolding find_entry drop_entry
  find_entry-drop_entry key other [] = ground arith
  find_entry-drop_entry key other ((k, w) ∷ m) = ground (
    arith,
    find_entry-drop_entry key other m,
    text_eq_iff key other,
    text_eq_iff k key,
    text_eq_iff k other,
  )

  -- No key stands twice, as in a `Map`.
  abbrev pub DistinctKeys : List (Text × V) → Type ℓ
  DistinctKeys [] = Unit
  DistinctKeys ((k, w) ∷ m) = (find_entry k m ≡ none) × DistinctKeys m

  abbrev pub keep_entry : (Text × V → Bool) → Text → Option V → Option V
  keep_entry p key none = none
  keep_entry p key (some v) = if p (key, v) then some v else none

  find_entry-gone :
      (p : Text × V → Bool) (key : Text) (m : List (Text × V))
      → find_entry key m ≡ none
      → find_entry key (filterb p m) ≡ none
  unfolding find_entry
  find_entry-gone p key [] e = refl
  find_entry-gone p key ((k, w) ∷ m) e = elim (Bool-cases (p (k, w))) [
    | inl kept ↦ rw (kept, find_entry) (ground (arith, find_entry-gone p key m))
    | inr gone ↦ rw gone (ground (arith, find_entry-gone p key m))
  ]

  pub find_entry-filterb :
      (p : Text × V → Bool) (key : Text) (m : List (Text × V))
      → DistinctKeys m
      → find_entry key (filterb p m) ≡ keep_entry p key (find_entry key m)
  unfolding find_entry
  find_entry-filterb p key [] u = refl
  find_entry-filterb p key ((k, w) ∷ m) (new, u) = elim (Bool-cases (text_eq k key)) [
    | inl same ↦
        rw (text_eq_sound k key same, text_eq_refl key)
          (elim (Bool-cases (p (key, w))) [
            | inl kept ↦ rw (kept, find_entry, text_eq_refl key)
            | inr gone ↦ rw gone (find_entry-gone p key m (rw (sym (text_eq_sound k key same)) new))
          ])
    | inr other ↦ rw other (elim (Bool-cases (p (k, w))) [
      | inl kept ↦ rw (kept, find_entry, other) (find_entry-filterb p key m u)
      | inr gone ↦ rw gone (find_entry-filterb p key m u)
    ])
  ]
