-- ===== src/Calendar/Laws.antt =====
-- The calendar counts days without gaps.
use hrus.Base.{ℕ, zero, suc, ◌+◌, ◌≤◌, ◌≡◌, refl, Bool, true, false, arith, if◌then◌else◌}
use hrus.Calendar.{
  Date, IsDate, is_leap, days_in_month, days_before_month, days_before_year, ordinal, next_day,
}

days_in_month_pos : (leap : Bool) (m : ℕ) → 28 ≤ days_in_month leap m
unfolding days_in_month
days_in_month_pos leap m = ground arith

days_before_december : (leap : Bool) → days_before_month leap 12 ≡ (if leap then 335 else 334)
unfolding days_before_month days_in_month
days_before_december true = refl
days_before_december false = refl

days_before_next_month :
    (leap : Bool) (m : ℕ)
    → 1 ≤ m
    → days_before_month leap (m + 1) ≡ days_before_month leap m + days_in_month leap m
unfolding days_before_month
days_before_next_month leap zero h = absurd (omega arith)
days_before_next_month leap (suc m) h = ground arith

days_before_next_year :
    (y : ℕ)
    → 1 ≤ y
    → days_before_year (y + 1) ≡ days_before_year y + (if is_leap y then 366 else 365)
unfolding days_before_year is_leap
days_before_next_year y h = ground arith

-- The next day is a date again.
pub next_day-IsDate : (d : Date) → IsDate d → IsDate (next_day d)
unfolding next_day
next_day-IsDate d v = ground (
  arith,
  days_in_month_pos (is_leap d.year) (d.month + 1),
  days_in_month_pos (is_leap (d.year + 1)) 1,
)

december_days : (leap : Bool) → days_in_month leap 12 ≡ 31
unfolding days_in_month
december_days true = refl
december_days false = refl

module _ (d : Date) (v : IsDate d) where
  leap_december :
      d.month ≡ 12
      → days_before_month (is_leap d.year) d.month ≡ (if is_leap d.year then 335 else 334)
  leap_december e = rw e (days_before_december (is_leap d.year))

  december_length : d.month ≡ 12 → days_in_month (is_leap d.year) d.month ≡ 31
  december_length e = rw e (december_days (is_leap d.year))

  -- The next day has the next ordinal.
  pub ordinal-next_day : ordinal (next_day d) ≡ ordinal d + 1
  unfolding ordinal next_day days_before_month
  ordinal-next_day = ground (
    arith,
    days_before_next_month (is_leap d.year) d.month,
    days_before_next_year d.year,
    leap_december,
    december_length,
  )
