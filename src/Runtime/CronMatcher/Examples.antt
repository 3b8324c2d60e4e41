-- ===== src/Runtime/CronMatcher/Examples.antt =====
-- Schedules, and the theorems at them.
use railfog.Prelude.{◌≡◌, refl, ◌↔◌, true, none, some, [], ◌∷◌, codes, text_eq, parts_of}
use railfog.Runtime.CronMatcher.{
  Date, CronExpression, compile_cron, matches, parse_field, has, parse_part, parse_parts,
  values_from, compile_fields,
}
use railfog.Runtime.CronMatcher.Fields.{parse_field_exact, SomePart}
use railfog.Runtime.CronMatcher.Matching.{compile_cron_exact, Fires}

abbrev monday_noon : Date
monday_noon = record { minute = 15; hour = 12; day = 3; month = 10; weekday = 1 }

-- `*/15 12 13 * MON` with the number of the day: the day of the week alone agrees.
abbrev quarters : CronExpression
quarters = record {
  minutes = 0 ∷ 15 ∷ 30 ∷ 45 ∷ [];
  hours = 12 ∷ [];
  days_of_month = 13 ∷ [];
  months = 1 ∷ 2 ∷ 3 ∷ 4 ∷ 5 ∷ 6 ∷ 7 ∷ 8 ∷ 9 ∷ 10 ∷ 11 ∷ 12 ∷ [];
  days_of_week = 1 ∷ [];
  dom_restricted = true;
  dow_restricted = true;
}

compiles : compile_cron (codes "*/15  12 13 * 1 ") ≡ some quarters
unfolding compile_cron compile_fields parse_part parse_parts values_from text_eq
compiles = refl

refuses_step : parse_field 0 59 (codes "*/0") ≡ none
unfolding parse_part parse_parts values_from text_eq
refuses_step = refl

-- `parseInt` stops at what is no digit, and a third bound is not read.
lenient : parse_field 0 59 (codes "3x-5-x") ≡ some (3 ∷ 4 ∷ 5 ∷ [])
unfolding parse_part parse_parts values_from text_eq
lenient = refl

fires : matches quarters monday_noon ≡ true
unfolding matches
fires = refl

compile_cron_exact_example :
    (matches quarters monday_noon ≡ true)
    ↔ Fires (codes "*/15") (codes "12") (codes "13") (codes "*") (codes "1") monday_noon
compile_cron_exact_example =
    compile_cron_exact (codes "*/15  12 13 * 1 ") (codes "*/15") (codes "12") (codes "13")
      (codes "*") (codes "1") quarters monday_noon refl compiles

lists : parse_field 0 23 (codes "1,4-8/2") ≡ some (1 ∷ 4 ∷ 6 ∷ 8 ∷ [])
unfolding parse_part parse_parts values_from text_eq
lists = refl

parse_field_exact_example :
    (has 6 (1 ∷ 4 ∷ 6 ∷ 8 ∷ []) ≡ true) ↔ SomePart 0 23 (parts_of b',' (codes "1,4-8/2")) 6
parse_field_exact_example = parse_field_exact 0 23 (codes "1,4-8/2") (1 ∷ 4 ∷ 6 ∷ 8 ∷ []) 6 lists
