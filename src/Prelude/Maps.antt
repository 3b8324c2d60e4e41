-- ===== src/Prelude/Maps.antt =====
-- Maps whose keys are distinct, after an entry is put or dropped.
use mathlib.Core.Path.{◌≡◌, refl, ap, sym, ◌∙◌, subst}
use mathlib.Core.Logic.{inl, inr}
use mathlib.Core.Bool.{true, false}
use mathlib.Core.Option.{none, some}
use mathlib.Core.List.{List, [], ◌∷◌, ◌++◌, map}
use native.Mathlib.Omega.{arith}
use railfog.Prelude.Tests.{Bool-cases, some-inj, or_default}
use railfog.Prelude.Lists.{All, append_assoc, append_nil}
use railfog.Prelude.Codes.{Text, text_eq, text_eq_iff, text_eq_refl}
use railfog.Prelude.Table.{
  find_entry, put_entry, drop_entry, DistinctKeys, find_entry-put_entry, find_entry-drop_entry,
}

module _ {ℓ} {V : Type ℓ} where
  pub DistinctKeys-put_entry :
      (key : Text) (v : V) (m : List (Text × V)) → DistinctKeys m → DistinctKeys (put_entry key v m)
  unfolding put_entry find_entry
  DistinctKeys-put_entry key v [] u = (refl, tt)
  DistinctKeys-put_entry key v ((k, w) ∷ m) (new, u) = elim (Bool-cases (text_eq k key)) [
    | inl same ↦ rw same (new, u)
    | inr other ↦ rw other (
      find_entry-put_entry key k v m ∙ ground (arith, text_eq_iff key k, text_eq_iff k key),
      DistinctKeys-put_entry key v m u,
    )
  ]

  pub All-put_entry {κ} :
      (P : Text × V → Type κ) (key : Text) (v : V) (m : List (Text × V))
      → ((k : Text) → text_eq k key ≡ true → P (k, v))
      → All P m
      → All P (put_entry key v m)
  unfolding put_entry
  All-put_entry P key v [] new h = (new key (text_eq_refl key), tt)
  All-put_entry P key v ((k, w) ∷ m) new (h, hs) = elim (Bool-cases (text_eq k key)) [
    | inl same ↦ rw same (new k same, hs)
    | inr other ↦ rw other (h, All-put_entry P key v m new hs)
  ]

  pub DistinctKeys-drop_entry :
      (key : Text) (m : List (Text × V)) → DistinctKeys m → DistinctKeys (drop_entry key m)
  unfolding drop_entry
  DistinctKeys-drop_entry key [] u = tt
  DistinctKeys-drop_entry key ((k, w) ∷ m) (new, u) = elim (Bool-cases (text_eq k key)) [
    | inl same ↦ rw same (DistinctKeys-drop_entry key m u)
    | inr other ↦
        rw other
          (find_entry-drop_entry key k m ∙ ground (arith, new), DistinctKeys-drop_entry key m u)
  ]

  pub All-drop_entry {κ} :
      (P : Text × V → Type κ) (key : Text) (m : List (Text × V))
      → All P m
      → All P (drop_entry key m)
  unfolding drop_entry
  All-drop_entry P key [] h = tt
  All-drop_entry P key ((k, w) ∷ m) (h, hs) = elim (Bool-cases (text_eq k key)) [
    | inl same ↦ rw same (All-drop_entry P key m hs)
    | inr other ↦ rw other (h, All-drop_entry P key m hs)
  ]

  -- What holds of every entry holds of the one that is found.
  pub All-find_entry {κ} :
      (P : V → Type κ) (key : Text) (m : List (Text × V)) (v : V)
      → All (λ e. P e.1) m
      → find_entry key m ≡ some v
      → P v
  unfolding find_entry
  All-find_entry P key [] v h e = absurd cc
  All-find_entry P key ((k, w) ∷ m) v (h, hs) e = elim (Bool-cases (text_eq k key)) [
    | inl same ↦ subst P (some-inj (sym (rw same refl) ∙ e)) h
    | inr other ↦ All-find_entry P key m v hs (sym (rw other refl) ∙ e)
  ]

  put_entry-new :
      (key : Text) (v : V) (m : List (Text × V))
      → find_entry key m ≡ none
      → put_entry key v m ≡ m ++ (key, v) ∷ []
  unfolding put_entry find_entry
  put_entry-new key v [] e = refl
  put_entry-new key v ((k, w) ∷ m) e = elim (Bool-cases (text_eq k key)) [
    | inl same ↦ absurd (ground (arith, e, same))
    | inr other ↦ rw other (ap (λ r. (k, w) ∷ r) (put_entry-new key v m (ground (arith, e, other))))
  ]

  find_entry-before :
      (key k : Text) (v : V) (m rest : List (Text × V))
      → find_entry k (m ++ (key, v) ∷ rest) ≡ none
      → text_eq key k ≡ false
  unfolding find_entry
  find_entry-before key k v [] rest e = ground (arith, e)
  find_entry-before key k v ((k', w) ∷ m) rest e =
      ground (arith, e, find_entry-before key k v m rest)

  DistinctKeys-middle :
      (key : Text) (v : V) (m rest : List (Text × V))
      → DistinctKeys (m ++ (key, v) ∷ rest)
      → find_entry key m ≡ none
  unfolding find_entry
  DistinctKeys-middle key v [] rest u = refl
  DistinctKeys-middle key v ((k, w) ∷ m) rest (new, u) = ground (
    arith,
    find_entry-before key k v m rest new,
    DistinctKeys-middle key v m rest u,
    text_eq_iff key k,
    text_eq_iff k key,
  )

  -- `new Map(entries)`, and `set` of each entry in a loop.
  abbrev pub put_all : List (Text × V) → List (Text × V) → List (Text × V)
  put_all m [] = m
  put_all m ((key, v) ∷ entries) = put_all (put_entry key v m) entries

  put_all-append :
      (m entries : List (Text × V)) → DistinctKeys (m ++ entries) → put_all m entries ≡ m ++ entries
  put_all-append m [] u = sym (append_nil m)
  put_all-append m ((key, v) ∷ entries) u =
      ap (λ r. put_all r entries) (put_entry-new key v m (DistinctKeys-middle key v m entries u))
      ∙ (put_all-append (m ++ (key, v) ∷ []) entries
            (subst DistinctKeys (sym (append_assoc m ((key, v) ∷ []) entries)) u)
          ∙ append_assoc m ((key, v) ∷ []) entries)

  -- A map of distinct keys is read back from its entries.
  pub put_all-entries : (m : List (Text × V)) → DistinctKeys m → put_all [] m ≡ m
  put_all-entries m u = put_all-append [] m u

-- What undoes a function at every element undoes it on the list.
pub map_back {ℓ κ} :
    {A : Type ℓ} {B : Type κ} (f : B → A) (g : A → B) (xs : List A)
    → All (λ x. f (g x) ≡ x) xs
    → map f (map g xs) ≡ xs
map_back f g [] h = refl
map_back f g (x ∷ xs) (h, hs) =
    ap (λ y. y ∷ map f (map g xs)) h ∙ ap (λ ys. x ∷ ys) (map_back f g xs hs)

-- Two functions in sequence that make one at every element make it on the list.
pub map_onto {ℓ κ ι} :
    {A : Type ℓ} {B : Type κ} {C : Type ι} (f : B → C) (g : A → B) (h : A → C) (xs : List A)
    → All (λ x. f (g x) ≡ h x) xs
    → map f (map g xs) ≡ map h xs
map_onto f g h [] e = refl
map_onto f g h (x ∷ xs) (e, es) =
    ap (λ y. y ∷ map f (map g xs)) e ∙ ap (λ ys. h x ∷ ys) (map_onto f g h xs es)

-- A function on the values of a map.
abbrev pub map_values {ℓ κ} :
    {A : Type ℓ} {B : Type κ} → (A → B) → List (Text × A) → List (Text × B)
map_values f m = map (λ entry. (entry.0, f entry.1)) m

find_entry-map_none {ℓ κ} :
    {A : Type ℓ} {B : Type κ} (f : A → B) (key : Text) (m : List (Text × A))
    → find_entry key m ≡ none
    → find_entry key (map_values f m) ≡ none
unfolding find_entry
find_entry-map_none f key [] h = refl
find_entry-map_none f key ((k, v) ∷ m) h = ground (arith, h, find_entry-map_none f key m)

pub DistinctKeys-map_values {ℓ κ} :
    {A : Type ℓ} {B : Type κ} (f : A → B) (m : List (Text × A))
    → DistinctKeys m
    → DistinctKeys (map_values f m)
DistinctKeys-map_values f [] u = tt
DistinctKeys-map_values f ((k, v) ∷ m) (new, u) =
    (find_entry-map_none f k m new, DistinctKeys-map_values f m u)

-- The map of a key, or the empty one.
pub All-or_default {κ ι} :
    {W : Type ι} (P : List W → Type κ) (key : Text) (m : List (Text × List W))
    → P []
    → All (λ e. P e.1) m
    → P (or_default (find_entry key m) [])
unfolding find_entry
All-or_default P key [] none_yet h = none_yet
All-or_default P key ((k, w) ∷ m) none_yet (h, hs) = elim (Bool-cases (text_eq k key)) [
  | inl same ↦ rw same h
  | inr other ↦ rw other (All-or_default P key m none_yet hs)
]

pub map_same {ℓ} : {A : Type ℓ} (f : A → A) (xs : List A) → All (λ x. f x ≡ x) xs → map f xs ≡ xs
map_same f [] h = refl
map_same f (x ∷ xs) (h, hs) = ap (λ y. y ∷ map f xs) h ∙ ap (λ ys. x ∷ ys) (map_same f xs hs)
