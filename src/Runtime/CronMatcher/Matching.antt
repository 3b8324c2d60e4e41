-- ===== src/Runtime/CronMatcher/Matching.antt =====
-- runtime/lifecycle/cron-matcher.ts, `compileCron` and `matches`: when a schedule fires.
use railfog.Prelude.{
  ℕ, ◌+◌, ◌≡◌, refl, ◌↔◌, ◌⊎◌, inl, inr, Bool, true, false, not, ◌&&◌, ◌||◌, Option, none, some,
  List, [], ◌∷◌, Text, codes, text_eq, trim, parts_of, some-inj, subst,
}
use railfog.Runtime.CronMatcher.{
  compile_parsed, cron_of, Date, CronExpression, compile_fields, compile_cron, split_blanks,
  parse_field, matches, day_matches, has,
}
use railfog.Runtime.CronMatcher.Fields.{SomePart, parse_field_exact}

-- The field contains the value.
abbrev pub Contains : (low high : ℕ) → Text → ℕ → Type 0
Contains low high field v = SomePart low high (parts_of b',' field) v

-- The rule of the days: of two fields that are not `*`, one is enough; of one, that one counts.
abbrev pub DayRule : (dom_any dow_any : Bool) → (Dom Dow : Type 0) → Type 0
DayRule false false Dom Dow = Dom ⊎ Dow
DayRule false true Dom Dow = Dom
DayRule true false Dom Dow = Dow
DayRule true true Dom Dow = Unit

abbrev pub Fires : (f0 f1 f2 f3 f4 : Text) → Date → Type 0
Fires f0 f1 f2 f3 f4 date =
    Contains 0 59 f0 date.minute
    × (Contains 0 23 f1 date.hour
        × (Contains 1 12 f3 (date.month + 1)
            × DayRule (text_eq f2 (codes "*")) (text_eq f4 (codes "*")) (Contains 1 31 f2 date.day)
                (Contains 0 6 f4 date.weekday)))

or_split : (a b : Bool) → (a || b) ≡ true → (a ≡ true) ⊎ (b ≡ true)
or_split true b e = inl refl
or_split false b e = inr e

or_left : (a b : Bool) → a ≡ true → (a || b) ≡ true
or_left true b e = refl
or_left false b e = absurd cc

or_right : (a b : Bool) → b ≡ true → (a || b) ≡ true
or_right true b e = refl
or_right false b e = e

day_matches-DayRule :
    (dom_any dow_any dom dow : Bool) (Dom Dow : Type 0)
    → (dom ≡ true) ↔ Dom
    → (dow ≡ true) ↔ Dow
    → (day_matches (not dom_any) (not dow_any) dom dow ≡ true) ↔ DayRule dom_any dow_any Dom Dow
day_matches-DayRule false false dom dow Dom Dow (d, d') (w, w') = (
  (λ e. elim (or_split dom dow e) [ inl l ↦ inl (d l) | inr r ↦ inr (w r) ]),
  (λ h. elim h [ inl l ↦ or_left dom dow (d' l) | inr r ↦ or_right dom dow (w' r) ]),
)
day_matches-DayRule false true dom dow Dom Dow dd ww = dd
day_matches-DayRule true false dom dow Dom Dow dd ww = ww
day_matches-DayRule true true dom dow Dom Dow dd ww = ((λ e. tt), λ h. refl)

and_iff :
    {P Q : Type 0} (a b : Bool) → (a ≡ true) ↔ P → (b ≡ true) ↔ Q → ((a && b) ≡ true) ↔ (P × Q)
and_iff true b (p, p') (q, q') = ((λ e. (p refl, q e)), λ (h, k). q' k)
and_iff false b (p, p') (q, q') = ((λ e. absurd cc), λ (h, k). p' h)

cron_of-exact :
    (f0 f1 f2 f3 f4 : Text) (m h d o w : List ℕ) (date : Date)
    → parse_field 0 59 f0 ≡ some m
    → parse_field 0 23 f1 ≡ some h
    → parse_field 1 31 f2 ≡ some d
    → parse_field 1 12 f3 ≡ some o
    → parse_field 0 6 f4 ≡ some w
    → (matches (cron_of f2 f4 m h d o w) date ≡ true) ↔ Fires f0 f1 f2 f3 f4 date
unfolding matches
cron_of-exact f0 f1 f2 f3 f4 m h d o w date e0 e1 e2 e3 e4 =
    and_iff _ _ (parse_field_exact 0 59 f0 m date.minute e0) (
      and_iff _ _ (parse_field_exact 0 23 f1 h date.hour e1) (
        and_iff _ _ (parse_field_exact 1 12 f3 o (date.month + 1) e3) (
          day_matches-DayRule (text_eq f2 (codes "*")) (text_eq f4 (codes "*")) (has date.day d)
            (has date.weekday w) _ _ (parse_field_exact 1 31 f2 d date.day e2)
            (parse_field_exact 0 6 f4 w date.weekday e4))))

-- What has been parsed when the call returns.
Parsed : (f2 f4 : Text) (o0 o1 o2 o3 o4 : Option (List ℕ)) → CronExpression → Type 0
Parsed f2 f4 o0 o1 o2 o3 o4 cron =
    (m h d o w : List ℕ) × (o0 ≡ some m)
    × (o1 ≡ some h)
    × (o2 ≡ some d)
    × (o3 ≡ some o)
    × (o4 ≡ some w)
    × (cron_of f2 f4 m h d o w ≡ cron)

compile_parsed-Parsed :
    (f2 f4 : Text) (o0 o1 o2 o3 o4 : Option (List ℕ)) (cron : CronExpression)
    → compile_parsed f2 f4 o0 o1 o2 o3 o4 ≡ some cron
    → Parsed f2 f4 o0 o1 o2 o3 o4 cron
unfolding Parsed
compile_parsed-Parsed f2 f4 none o1 o2 o3 o4 cron e = absurd cc
compile_parsed-Parsed f2 f4 (some m) none o2 o3 o4 cron e = absurd cc
compile_parsed-Parsed f2 f4 (some m) (some h) none o3 o4 cron e = absurd cc
compile_parsed-Parsed f2 f4 (some m) (some h) (some d) none o4 cron e = absurd cc
compile_parsed-Parsed f2 f4 (some m) (some h) (some d) (some o) none cron e = absurd cc
compile_parsed-Parsed f2 f4 (some m) (some h) (some d) (some o) (some w) cron e =
    (m, h, d, o, w, refl, refl, refl, refl, refl, some-inj e)

from_Parsed :
    (f0 f1 f2 f3 f4 : Text) (cron : CronExpression) (date : Date)
    → Parsed f2 f4
        (parse_field 0 59 f0)
        (parse_field 0 23 f1)
        (parse_field 1 31 f2)
        (parse_field 1 12 f3)
        (parse_field 0 6 f4)
        cron
    → (matches cron date ≡ true) ↔ Fires f0 f1 f2 f3 f4 date
unfolding Parsed
from_Parsed f0 f1 f2 f3 f4 cron date (m, h, d, o, w, e0, e1, e2, e3, e4, made) =
    subst (λ c. (matches c date ≡ true) ↔ Fires f0 f1 f2 f3 f4 date) made
      (cron_of-exact f0 f1 f2 f3 f4 m h d o w date e0 e1 e2 e3 e4)

compile_fields-exact :
    (f0 f1 f2 f3 f4 : Text) (cron : CronExpression) (date : Date)
    → compile_fields (f0, f1 ∷ f2 ∷ f3 ∷ f4 ∷ []) ≡ some cron
    → (matches cron date ≡ true) ↔ Fires f0 f1 f2 f3 f4 date
unfolding compile_fields
compile_fields-exact f0 f1 f2 f3 f4 cron date e =
    from_Parsed f0 f1 f2 f3 f4 cron date (compile_parsed-Parsed f2 f4 _ _ _ _ _ cron e)

-- A schedule of five fields that compiles fires at a date exactly when the fields of the minute, the hour
-- and the month contain those of the date, and the days agree: when both of their fields are other than
-- `*`, one of them contains its day, when one is, that one does, and with neither any day will do.
pub compile_cron_exact :
    (expression f0 f1 f2 f3 f4 : Text) (cron : CronExpression) (date : Date)
    → split_blanks (trim expression) ≡ (f0, f1 ∷ f2 ∷ f3 ∷ f4 ∷ [])
    → compile_cron expression ≡ some cron
    → (matches cron date ≡ true) ↔ Fires f0 f1 f2 f3 f4 date
unfolding compile_cron
compile_cron_exact expression f0 f1 f2 f3 f4 cron date words e =
    compile_fields-exact f0 f1 f2 f3 f4 cron date
      (subst (λ w. compile_fields w ≡ some cron) words e)
