-- ===== src/Calendar.antt =====
-- Dates as Python's `datetime.date` has them: a year, a month and a day of the proleptic
-- Gregorian calendar. Dates are compared by their ordinal, the number of days since 31 December
-- of year 0, which is also what date subtraction counts.
pub mod Laws
use hrus.Base.{
  ℕ, zero, suc, ◌+◌, ◌-◌, ◌*◌, ◌/◌, ◌%◌, ◌≤◌, Bool, true, false, not, ◌&&◌, ◌||◌, ltb, leb, ◌==◌,
  if◌then◌else◌,
}

pub record Date : Type 0 where
  pub year : ℕ
  pub month : ℕ
  pub day : ℕ

abbrev pub date : ℕ → ℕ → ℕ → Date
date the_year the_month the_day = record { year = the_year; month = the_month; day = the_day }

unfoldable pub is_leap : ℕ → Bool
is_leap y = y % 4 == 0 && (not (y % 100 == 0) || y % 400 == 0)

abbrev days_of_february : Bool → ℕ
days_of_february true = 29
days_of_february false = 28

-- April, June, September and November.
abbrev has_thirty_days : ℕ → Bool
has_thirty_days m = m == 4 || m == 6 || m == 9 || m == 11

unfoldable pub days_in_month : Bool → ℕ → ℕ
days_in_month leap m =
    if m == 2 then days_of_february leap else if has_thirty_days m then 30 else 31

-- The days of a year before the first of a month.
unfoldable pub days_before_month : Bool → ℕ → ℕ
days_before_month leap zero = 0
days_before_month leap (suc zero) = 0
days_before_month leap (suc (suc m)) = days_before_month leap (suc m) + days_in_month leap (suc m)

unfoldable pub days_before_year : ℕ → ℕ
days_before_year y = (y - 1) * 365 + (y - 1) / 4 - (y - 1) / 100 + (y - 1) / 400

-- `date.toordinal()`
unfoldable pub ordinal : Date → ℕ
ordinal d = days_before_year d.year + days_before_month (is_leap d.year) d.month + d.day

-- `d + timedelta(days=1)`
unfoldable pub next_day : Date → Date
next_day d =
    if ltb d.day (days_in_month (is_leap d.year) d.month)
    then date d.year d.month (d.day + 1)
    else if ltb d.month 12
    then date d.year (d.month + 1) 1
    else date (d.year + 1) 1 1

-- `date.weekday()`: Monday is 0.
unfoldable pub weekday : Date → ℕ
weekday d = (ordinal d + 6) % 7

-- `a < b` and `a <= b` on dates
abbrev pub before : Date → Date → Bool
before a b = ltb (ordinal a) (ordinal b)

abbrev pub on_or_before : Date → Date → Bool
on_or_before a b = leb (ordinal a) (ordinal b)

abbrev pub same_date : Date → Date → Bool
same_date a b = ordinal a == ordinal b

-- A date that the constructor of `date` accepts.
pub record IsDate (d : Date) : Type 0 where
  pub year_pos : 1 ≤ d.year
  pub month_pos : 1 ≤ d.month
  pub month_le : d.month ≤ 12
  pub day_pos : 1 ≤ d.day
  pub day_le : d.day ≤ days_in_month (is_leap d.year) d.month
