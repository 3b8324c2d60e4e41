-- ===== src/Runtime/CronMatcher.antt =====
-- runtime/lifecycle/cron-matcher.ts. Both of its errors are `none`. A `Set` of numbers is the list of
-- what was added, and a date is its parts in local time.
pub mod Fields
pub mod Matching
pub mod Examples
use railfog.Prelude.{
  ℕ, zero, suc, ◌+◌, Bool, true, false, not, ◌&&◌, ◌||◌, Option, none, some, List, [], ◌∷◌, ◌++◌,
  map, Text, codes, text_eq, ltb, leb, ◌==◌, if◌then◌else◌, any, lower, split_on, parts_of,
  parse_int, is_blank, trim,
}

-- The numbers that a part of a field stands for: from the first to the last, by steps.
pub record CronRange : Type 0 where
  pub first : ℕ
  pub last : ℕ
  pub step : ℕ

-- `parseInt` of a bound or a step: none is `NaN`. No text between dashes spells a negative bound, and a
-- negative step is refused as `NaN` is.
abbrev pub bound_of : Option (Bool × ℕ) → Option ℕ
bound_of none = none
bound_of (some (true, n)) = none
bound_of (some (false, n)) = some n

abbrev pub positive_step : Option ℕ → Option ℕ
positive_step none = none
positive_step (some n) = if ltb n 1 then none else some n

abbrev pub step_of : List Text → Option ℕ
step_of [] = some 1
step_of (text ∷ others) = positive_step (bound_of (parse_int text))

abbrev pub last_of : (first : ℕ) → List Text → Option ℕ
last_of first [] = some first
last_of first (text ∷ others) = bound_of (parse_int text)

abbrev pub bounds_of : (low high : ℕ) → Text → Option (ℕ × ℕ)
bounds_of low high range_part =
    if text_eq range_part (codes "*") then some (low, high) else spelled (split_on b'-' range_part)
  where
    with_first : Option ℕ → List Text → Option (ℕ × ℕ)
    with_first none ends = none
    with_first (some first) ends = elim (last_of first ends) [
      | none ↦ none
      | some last ↦ some (first, last)
    ]

    spelled : Text × List Text → Option (ℕ × ℕ)
    spelled (first, ends) = with_first (bound_of (parse_int first)) ends

-- The check of the range.
abbrev pub checked : (low high : ℕ) → Option ℕ → Option (ℕ × ℕ) → Option CronRange
checked low high none bounds = none
checked low high (some step) none = none
checked low high (some step) (some (first, last)) =
    if ltb first low || (ltb high last || ltb last first)
    then none
    else some (record { first = first; last = last; step = step })

-- The body of the loop over the parts, up to the inner loop.
unfoldable pub parse_part : (low high : ℕ) → Text → Option CronRange
parse_part low high part =
    let (range_part, steps) = split_on b'/' (map lower part) in
    checked low high (step_of steps) (bounds_of low high range_part)

-- The inner loop, with one unit of fuel for a turn.
unfoldable pub values_from : (fuel v last step : ℕ) → List ℕ
values_from zero v last step = []
values_from (suc fuel) v last step =
    let rest = values_from fuel (v + step) last step in if leb v last then v ∷ rest else []

abbrev pub values_of : CronRange → List ℕ
values_of r = values_from (r.last + 1) r.first r.last r.step

abbrev pub add_values : Option CronRange → Option (List ℕ) → Option (List ℕ)
add_values none values = none
add_values (some r) none = none
add_values (some r) (some values) = some (values_of r ++ values)

unfoldable pub parse_parts : (low high : ℕ) → List Text → Option (List ℕ)
parse_parts low high [] = some []
parse_parts low high (part ∷ parts) =
    add_values (parse_part low high part) (parse_parts low high parts)

abbrev pub parse_field : (low high : ℕ) → Text → Option (List ℕ)
parse_field low high field = parse_parts low high (parts_of b',' field)

abbrev pub has : ℕ → List ℕ → Bool
has v values = any (λ x. x == v) values

-- `text.split(/\s+/)` of a text that ends in no blank: the first word and the others.
abbrev pub split_blanks : Text → Text × List Text
split_blanks [] = ([], [])
split_blanks (c ∷ cs) =
    let (word, words) = split_blanks cs in
    if is_blank c
    then (if starts_blank cs then (word, words) else ([], word ∷ words))
    else (c ∷ word, words)
  where
    starts_blank : Text → Bool
    starts_blank [] = false
    starts_blank (d ∷ ds) = is_blank d

pub record Date : Type 0 where
  pub minute : ℕ
  pub hour : ℕ
  pub day : ℕ
  -- `getMonth()`, from 0.
  pub month : ℕ
  pub weekday : ℕ

pub record CronExpression : Type 0 where
  pub minutes : List ℕ
  pub hours : List ℕ
  pub days_of_month : List ℕ
  pub months : List ℕ
  pub days_of_week : List ℕ
  pub dom_restricted : Bool
  pub dow_restricted : Bool

infixl 5 ◌>>=◌
abbrev ◌>>=◌ : {A B : Type 0} → Option A → (A → Option B) → Option B
none >>= rest = none
some a >>= rest = rest a

-- What is returned of the fields that are parsed; the two texts are those of the days.
abbrev pub cron_of :
    (dom dow : Text) (minutes hours days_of_month months days_of_week : List ℕ) → CronExpression
cron_of dom dow minutes hours days_of_month months days_of_week = record {
  minutes = minutes;
  hours = hours;
  days_of_month = days_of_month;
  months = months;
  days_of_week = days_of_week;
  dom_restricted = not (text_eq dom (codes "*"));
  dow_restricted = not (text_eq dow (codes "*"));
}

-- A field that throws ends the call.
abbrev pub compile_parsed :
    (dom dow : Text) (minutes hours days_of_month months days_of_week : Option (List ℕ))
    → Option CronExpression
compile_parsed dom dow minutes hours days_of_month months days_of_week = do
  parsed_minutes ← minutes
  parsed_hours ← hours
  parsed_days ← days_of_month
  parsed_months ← months
  parsed_weekdays ← days_of_week
  some (cron_of dom dow parsed_minutes parsed_hours parsed_days parsed_months parsed_weekdays)

unfoldable pub compile_fields : Text × List Text → Option CronExpression
compile_fields (f0, f1 ∷ f2 ∷ f3 ∷ f4 ∷ []) =
    compile_parsed f2 f4 (parse_field 0 59 f0) (parse_field 0 23 f1) (parse_field 1 31 f2)
      (parse_field 1 12 f3) (parse_field 0 6 f4)
compile_fields other = none

unfoldable pub compile_cron : (expression : Text) → Option CronExpression
compile_cron expression = compile_fields (split_blanks (trim expression))

abbrev pub day_matches : (dom_restricted dow_restricted dom_match dow_match : Bool) → Bool
day_matches true true dom_match dow_match = dom_match || dow_match
day_matches true false dom_match dow_match = dom_match
day_matches false true dom_match dow_match = dow_match
day_matches false false dom_match dow_match = true

unfoldable pub matches : CronExpression → Date → Bool
matches cron date =
    has date.minute cron.minutes
    && (has date.hour cron.hours
        && (has (date.month + 1) cron.months
            && day_matches cron.dom_restricted cron.dow_restricted (has date.day cron.days_of_month)
                (has date.weekday cron.days_of_week)))
