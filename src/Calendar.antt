-- ===== src/Calendar.antt =====
-- JavaScript dates in UTC, as the code uses them: `monthStart` and `dueDateForMonth` of
-- backend/src/management.controller.ts. A date is its UTC fields, months from 1; what `new Date`
-- reads in a text is a value or, where `getTime()` is NaN, `none`.
mod Months
use comandas_multitenant_off.Prelude.{
  ℕ, ◌+◌, ◌-◌, ◌*◌, ◌%◌, Bool, true, false, not, ◌||◌, ltb, leb, ◌==◌, Option, none, some,
  if◌then◌else◌,
}
use comandas_multitenant_off.Http.{Result, ok, err, bad_request, bad_date}

pub record Date : Type 0 where
  pub year : ℕ
  pub month : ℕ
  pub day : ℕ
  -- milliseconds of the day
  pub time : ℕ

-- `getTime()`, as far as it orders dates.
abbrev pub rank : Date → ℕ
rank d = ((d.year * 12 + (d.month - 1)) * 31 + (d.day - 1)) * 86400000 + d.time

-- `a < b`
abbrev pub is_before : Date → Date → Bool
is_before a b = ltb (rank a) (rank b)

-- `a <= b`
abbrev pub is_until : Date → Date → Bool
is_until a b = leb (rank a) (rank b)

-- `parseDate`
unfoldable pub parse_date : Option Date → Result Date
parse_date none = err (bad_request bad_date)
parse_date (some d) = ok d

abbrev pub is_leap : ℕ → Bool
is_leap y = (y % 400 == 0) || (if y % 100 == 0 then false else y % 4 == 0)

-- `new Date(Date.UTC(year, month + 1, 0)).getUTCDate()`: the last day of the month
unfoldable pub last_day : ℕ → ℕ → ℕ
last_day y m =
    if m == 2
    then (if is_leap y then 29 else 28)
    else if (m == 4) || (m == 6) || (m == 9) || (m == 11)
    then 30
    else 31

-- `monthStart`
unfoldable pub month_start : Date → Date
month_start d = record { year = d.year; month = d.month; day = 1; time = 0 }

-- `dueDateForMonth`
unfoldable pub due_date_for_month : Date → ℕ → Date
due_date_for_month competence due_day = record {
  year = competence.year;
  month = competence.month;
  day =
      if ltb (last_day competence.year competence.month) due_day
      then last_day competence.year competence.month
      else due_day;
  time = 0;
}
