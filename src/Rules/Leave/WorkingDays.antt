-- ===== src/Rules/Leave/WorkingDays.antt =====
-- `working_days` ends, and counts the working days between two dates by their ordinals alone.
use hrus.Base.{
  ℕ, zero, suc, ◌+◌, ◌-◌, ◌%◌, ◌<◌, ◌≡◌, refl, Bool, not, ◌&&◌, none, some, List, leb, Bool-cases,
  inl, inr, [], arith, any, if◌then◌else◌, ltb, ◌==◌,
}
use native.Mathlib.Nat.{suc-add}
use hrus.Calendar.{Date, IsDate, ordinal, weekday, next_day}
use hrus.Calendar.Laws.{next_day-IsDate, ordinal-next_day}
use hrus.Rules.Leave.{is_working, max_ordinal, counted, overflow, count_working, working_days}

-- The day with the ordinal `o` is a weekday and no holiday.
unfoldable pub is_workday : List Date → ℕ → Bool
is_workday holidays o = ltb ((o + 6) % 7) 5 && not (any (λ h. o == ordinal h) holidays)

-- How many of the `n` days from the ordinal `first` on are working days.
unfoldable pub count_workdays : List Date → ℕ → ℕ → ℕ
count_workdays holidays first zero = 0
count_workdays holidays first (suc n) =
    (if is_workday holidays first then 1 else 0) + count_workdays holidays (first + 1) n

is_working-eq :
    (holidays : List Date) (d : Date) → is_working holidays d ≡ is_workday holidays (ordinal d)
unfolding is_workday weekday
is_working-eq holidays d = refl

-- The loop steps past the last day that a date can be.
abbrev pub steps_past : Date → Date → Bool
steps_past current end = leb (ordinal current) (ordinal end) && leb max_ordinal (ordinal end)

count_working_lem :
    (fuel : ℕ) (current end : Date) (holidays : List Date) (days n : ℕ)
    → IsDate current
    → ordinal end + 1 - ordinal current ≡ n
    → n < fuel
    → count_working fuel current end holidays days ≡ (
        if steps_past current end
        then overflow
        else counted (days + count_workdays holidays (ordinal current) n))
unfolding count_working count_workdays
count_working_lem zero current end holidays days n v e h = absurd (omega arith)
count_working_lem (suc fuel) current end holidays days zero v e h = ground arith
count_working_lem (suc fuel) current end holidays days (suc n) v e h = ground (
  arith,
  is_working-eq holidays current,
  ordinal-next_day current v,
  count_working_lem fuel (next_day current) end holidays
      (if is_working holidays current then days + 1 else days) n (next_day-IsDate current v)
      (omega (arith, ordinal-next_day current v)) (omega arith),
)

-- From a valid start the loop of `working_days` ends within its fuel. Where the end is the last day
-- that a date can be and not before the start, it ends with an overflow and there is no result;
-- otherwise the result is the number of days from start to end, both included, that are weekdays
-- and no holidays.
pub working_days-counts :
    (start end : Date) (holidays : List Date)
    → IsDate start
    → let n = ordinal end + 1 - ordinal start in
      let workdays = count_workdays holidays (ordinal start) n in
      (count_working (suc n) start end holidays 0
        ≡ (if steps_past start end then overflow else counted workdays))
      × (working_days start end holidays ≡ (if steps_past start end then none else some workdays))
unfolding working_days
working_days-counts start end holidays v =
    let n = ordinal end + 1 - ordinal start in
    let from_zero : 0 + count_workdays holidays (ordinal start) n
        ≡ count_workdays holidays (ordinal start) n =
      omega arith in
    let loop = count_working_lem (suc n) start end holidays 0 n v refl (omega arith) in
    elim (Bool-cases (steps_past start end)) [
      | inl past ↦ (rw (loop, past) refl, rw (loop, past) refl)
      | inr within ↦ (rw (loop, within, from_zero) refl, rw (loop, within, from_zero) refl)
    ]

-- Splitting a span splits the count.
pub count_workdays-add :
    (holidays : List Date) (m n first : ℕ)
    → count_workdays holidays first (m + n)
      ≡ count_workdays holidays first m + count_workdays holidays (first + m) n
unfolding count_workdays
count_workdays-add holidays zero n first = ground (arith)
count_workdays-add holidays (suc m) n first =
    let e : first + suc m ≡ first + 1 + m = omega arith in
    rw (suc-add, e, count_workdays) (omega (arith, count_workdays-add holidays m n (first + 1)))

-- A week without holidays has five working days, whatever day it begins on.
pub count_workdays_week : (first : ℕ) → count_workdays [] first 7 ≡ 5
unfolding count_workdays is_workday any
count_workdays_week first = ground arith
