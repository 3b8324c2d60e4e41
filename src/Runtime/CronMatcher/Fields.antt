-- ===== src/Runtime/CronMatcher/Fields.antt =====
-- runtime/lifecycle/cron-matcher.ts, `parseField`: which values a field stands for.
use railfog.Prelude.{
  ◌||◌, parse_int, lower, map, ltb-false→le, split_on, subst, le→leb, ℕ, zero, suc, ◌+◌, ◌*◌, ◌≤◌,
  ◌<◌, ◌≡◌, refl, sym, ◌∙◌, ◌↔◌, ◌⊎◌, inl, inr, true, false, Option, none, some, List, [], ◌∷◌,
  ◌++◌, Text, ◌==◌, ltb, leb, arith, Bool-cases, some-inj, leb→le, ==_iff, parts_of,
}
use railfog.Runtime.CronMatcher.{
  bound_of, positive_step, CronRange, parse_part, values_from, values_of, add_values, parse_parts,
  parse_field, has, checked, step_of, bounds_of,
}

-- A value from `first` by steps up to `last`.
abbrev pub Steps : (first last step v : ℕ) → Type 0
Steps first last step v = (k : ℕ) × (v ≡ first + k * step) × (v ≤ last)

has_cons : (v x : ℕ) (xs : List ℕ) → has v (x ∷ xs) ≡ true → (x ≡ v) ⊎ (has v xs ≡ true)
has_cons v x xs h = elim (Bool-cases (x == v)) [
  | inl e ↦ inl ((==_iff x v).0 e)
  | inr e ↦ inr (ground (arith, h, e))
]

values_from_sound :
    (fuel first last step v : ℕ)
    → has v (values_from fuel first last step) ≡ true
    → Steps first last step v
unfolding values_from
values_from_sound zero first last step v h = absurd cc
values_from_sound (suc fuel) first last step v h = elim (Bool-cases (leb first last)) [
  | inr e ↦ absurd (nothing (rw e at h))
  | inl e ↦ elim (has_cons v first (values_from fuel (first + step) last step) (rw e at h)) [
    | inl here ↦ (0, omega (arith, here), omega (arith, here, leb→le first last e))
    | inr later ↦ next (values_from_sound fuel (first + step) last step v later)
  ]
]
  where
    nothing : has v [] ≡ true → ⊥
    nothing x = absurd cc

    next : Steps (first + step) last step v → Steps first last step v
    next (k, at, below) = (suc k, at ∙ omega arith, below)

has_first : (v : ℕ) (xs : List ℕ) → has v (v ∷ xs) ≡ true
has_first v xs = let e : (v == v) ≡ true = (==_iff v v).1 refl in rw e refl

has_later : (v x : ℕ) (xs : List ℕ) → has v xs ≡ true → has v (x ∷ xs) ≡ true
has_later v x xs h = ground (arith, h)

values_from_complete :
    (fuel first last step k : ℕ)
    → 1 ≤ step
    → last < first + fuel
    → first + k * step ≤ last
    → has (first + k * step) (values_from fuel first last step) ≡ true
unfolding values_from
values_from_complete zero first last step k positive enough h = absurd (omega arith)
values_from_complete (suc fuel) first last step zero positive enough h =
    let same : first ≡ first + 0 * step = omega arith in
    rw (le→leb first last (omega (arith, h))) (
      subst (λ v. has v (first ∷ values_from fuel (first + step) last step) ≡ true) same
        (has_first first (values_from fuel (first + step) last step)))
values_from_complete (suc fuel) first last step (suc k) positive enough h =
    let rest =
      values_from_complete fuel (first + step) last step k positive (omega arith) (omega arith) in
    let same : (first + step) + k * step ≡ first + suc k * step = omega arith in
    rw (le→leb first last (omega (arith, h))) (
      has_later (first + suc k * step) first (values_from fuel (first + step) last step)
        (subst (λ v. has v (values_from fuel (first + step) last step) ≡ true) same rest))

-- What a checked range is.
abbrev pub InRange : (low high : ℕ) → CronRange → Type 0
InRange low high r = (low ≤ r.first) × (r.first ≤ r.last) × (r.last ≤ high) × (1 ≤ r.step)

abbrev pub StepsOf : CronRange → ℕ → Type 0
StepsOf r v = Steps r.first r.last r.step v

-- Some part of the field stands for the value.
abbrev pub SomePart : (low high : ℕ) → List Text → ℕ → Type 0
SomePart low high [] v = ⊥
SomePart low high (part ∷ parts) v =
    ((r : CronRange) × (parse_part low high part ≡ some r) × InRange low high r × StepsOf r v)
    ⊎ SomePart low high parts v

has-append :
    (v : ℕ) (xs ys : List ℕ) → has v (xs ++ ys) ≡ true → (has v xs ≡ true) ⊎ (has v ys ≡ true)
has-append v [] ys h = inr h
has-append v (x ∷ xs) ys h = elim (has_cons v x (xs ++ ys) h) [
  | inl e ↦ inl (subst (λ w. has w (x ∷ xs) ≡ true) e (has_first x xs))
  | inr later ↦ elim (has-append v xs ys later) [ inl l ↦ inl (has_later v x xs l) | inr r ↦ inr r ]
]

has-append_left : (v : ℕ) (xs ys : List ℕ) → has v xs ≡ true → has v (xs ++ ys) ≡ true
has-append_left v [] ys h = absurd cc
has-append_left v (x ∷ xs) ys h = elim (has_cons v x xs h) [
  | inl e ↦ subst (λ w. has w (x ∷ (xs ++ ys)) ≡ true) e (has_first x (xs ++ ys))
  | inr later ↦ has_later v x (xs ++ ys) (has-append_left v xs ys later)
]

has-append_right : (v : ℕ) (xs ys : List ℕ) → has v ys ≡ true → has v (xs ++ ys) ≡ true
has-append_right v [] ys h = h
has-append_right v (x ∷ xs) ys h = has_later v x (xs ++ ys) (has-append_right v xs ys h)

values_of-StepsOf : (r : CronRange) (v : ℕ) → has v (values_of r) ≡ true → StepsOf r v
values_of-StepsOf r v h = values_from_sound (r.last + 1) r.first r.last r.step v h

StepsOf-values_of : (r : CronRange) (v : ℕ) → 1 ≤ r.step → StepsOf r v → has v (values_of r) ≡ true
StepsOf-values_of r v positive (k, at, below) =
    subst (λ w. has w (values_of r) ≡ true) (sym at)
      (values_from_complete (r.last + 1) r.first r.last r.step k positive (omega arith)
        (omega (arith, at, below)))

step_of-positive : (texts : List Text) (step : ℕ) → step_of texts ≡ some step → 1 ≤ step
step_of-positive [] step e = let same : 1 ≡ step = some-inj e in omega (arith, same)
step_of-positive (text ∷ others) step e = go (bound_of (parse_int text)) e
  where
    go : (o : Option ℕ) → positive_step o ≡ some step → 1 ≤ step
    go none h = absurd cc
    go (some n) h = elim (Bool-cases (ltb n 1)) [
      | inl small ↦ absurd (no_step (rw small at h))
      | inr large ↦
          let same : n ≡ step = some-inj (rw large at h) in
          omega (arith, same, ltb-false→le n 1 large)
    ]
      where
        no_step : none ≡ some step → ⊥
        no_step x = absurd cc

checked-InRange :
    (low high : ℕ) (texts : List Text) (step : Option ℕ) (bounds : Option (ℕ × ℕ)) (r : CronRange)
    → step_of texts ≡ step
    → checked low high step bounds ≡ some r
    → InRange low high r
checked-InRange low high texts none bounds r s e = absurd cc
checked-InRange low high texts (some step) none r s e = absurd cc
checked-InRange low high texts (some step) (some (first, last)) r s e =
    elim (Bool-cases (ltb first low || (ltb high last || ltb last first))) [
      | inl outside ↦ absurd (refused (rw outside at e))
      | inr inside ↦
          let made : record { first = first; last = last; step = step } ≡ r =
            some-inj (rw inside at e) in
          subst (InRange low high) made (
            ground (arith, inside),
            ground (arith, inside),
            ground (arith, inside),
            step_of-positive texts step s,
          )
    ]
  where
    refused : none ≡ some r → ⊥
    refused x = absurd cc

parse_part-InRange :
    (low high : ℕ) (part : Text) (r : CronRange)
    → parse_part low high part ≡ some r
    → InRange low high r
unfolding parse_part
parse_part-InRange low high part r e =
    let (range_part, steps) = split_on b'/' (map lower part) in
    checked-InRange low high steps (step_of steps) (bounds_of low high range_part) r refl e

add_values-cases :
    (o : Option CronRange) (rest : Option (List ℕ)) (values : List ℕ)
    → add_values o rest ≡ some values
    → (r : CronRange) × (ws : List ℕ) × (o ≡ some r)
      × (rest ≡ some ws)
      × (values_of r ++ ws ≡ values)
add_values-cases none rest values e = absurd cc
add_values-cases (some r) none values e = absurd cc
add_values-cases (some r) (some ws) values e = (r, ws, refl, refl, some-inj e)

parse_parts_sound :
    (low high : ℕ) (parts : List Text) (values : List ℕ) (v : ℕ)
    → parse_parts low high parts ≡ some values
    → has v values ≡ true
    → SomePart low high parts v
unfolding parse_parts
parse_parts_sound low high [] values v e h =
    absurd (empty (subst (λ vs. has v vs ≡ true) (sym (some-inj e)) h))
  where
    empty : false ≡ true → ⊥
    empty x = absurd cc
parse_parts_sound low high (part ∷ parts) values v e h =
    let (r, ws, at, rest, sum) =
      add_values-cases (parse_part low high part) (parse_parts low high parts) values e in
    elim (has-append v (values_of r) ws (subst (λ vs. has v vs ≡ true) (sym sum) h)) [
      | inl l ↦ inl (r, at, parse_part-InRange low high part r at, values_of-StepsOf r v l)
      | inr later ↦ inr (parse_parts_sound low high parts ws v rest later)
    ]

parse_parts_complete :
    (low high : ℕ) (parts : List Text) (values : List ℕ) (v : ℕ)
    → parse_parts low high parts ≡ some values
    → SomePart low high parts v
    → has v values ≡ true
unfolding parse_parts
parse_parts_complete low high [] values v e h = absurd h
parse_parts_complete low high (part ∷ parts) values v e h =
    let (r, ws, at, rest, sum) =
      add_values-cases (parse_part low high part) (parse_parts low high parts) values e in
    subst (λ vs. has v vs ≡ true) sum
      (elim h [
        | inl (r', at', (_, _, _, positive), steps) ↦
            let same : r' ≡ r = some-inj (sym at' ∙ at) in
            has-append_left v (values_of r) ws
              (subst (λ q. has v (values_of q) ≡ true) same (StepsOf-values_of r' v positive steps))
        | inr later ↦
            has-append_right v (values_of r) ws
              (parse_parts_complete low high parts ws v rest later)
      ])

-- A field that is parsed contains a value exactly when some part of it stands for the value: the
-- part is then a range within the domain of the field, with a step of at least 1, and the value lies on
-- its steps.
pub parse_field_exact :
    (low high : ℕ) (field : Text) (values : List ℕ) (v : ℕ)
    → parse_field low high field ≡ some values
    → (has v values ≡ true) ↔ SomePart low high (parts_of b',' field) v
parse_field_exact low high field values v e = (
  parse_parts_sound low high (parts_of b',' field) values v e,
  parse_parts_complete low high (parts_of b',' field) values v e,
)
