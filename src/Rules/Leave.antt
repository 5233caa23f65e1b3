-- ===== src/Rules/Leave.antt =====
-- backend/app/rules/leave.py: the hard rules of leave. A check returns a violation, which is its
-- code with the values that its message shows, or None.
pub mod Service
pub mod Policy
pub mod WorkingDays
use hrus.Base.{
  ℕ, zero, suc, ◌+◌, ◌-◌, ◌*◌, ◌/◌, ◌%◌, Bool, true, false, not, ◌&&◌, ◌||◌, Option, none, some,
  List, [], ◌∷◌, String, str_eq, ltb, leb, ◌==◌, if◌then◌else◌, any, filter,
}
use hrus.Base.Int.{ℤ, pos, ltb_ℤ}
use hrus.Calendar.{Date, date, ordinal, weekday, next_day, before, on_or_before, same_date}
use hrus.Errors.{Code, Result, ok, err, rule_violation}
use hrus.Models.Leave.{LeavePolicy, LeaveRequestStatus, max_request_span_days}
use hrus.Models.CoreHr.{EmploymentStatus, is_active_status}

abbrev pub Violation : Type 0
Violation = Code

abbrev pub month_index : Date → ℕ
month_index d = d.year * 12 + d.month

-- Truncated subtraction is the `max(months, 0)` of the source.
unfoldable pub service_months : Date → Date → ℕ
service_months hire_date as_of =
    let months = month_index as_of - month_index hire_date in
    if ltb as_of.day hire_date.day then months - 1 else months

abbrev same_grade : Option String → Option String → Bool
same_grade none none = true
same_grade (some a) (some b) = str_eq a b
same_grade _ _ = false

-- `grade.upper() if grade else None`; the string method `upper` is an argument.
abbrev pub normal_grade : (String → String) → Option String → Option String
normal_grade upper none = none
normal_grade upper (some g) = if str_eq g "" then none else some (upper g)

abbrev pub fits_grade : Option String → Option String → Bool
fits_grade none grade = true
fits_grade (some p) grade = same_grade (some p) grade

-- The condition of the comprehension in `pick_policy`.
unfoldable pub is_candidate : ℕ → Option String → ℕ → LeavePolicy → Bool
is_candidate leave_type_id grade months p =
    p.leave_type_id == leave_type_id && leb p.min_service_months months && fits_grade p.grade grade

-- `key(p) < key(q)` for the key `(p.grade is None, -p.min_service_months)`: the grade decides,
-- and months of service where neither or both have one.
abbrev pub grade_first : Option String → Option String → Bool → Bool
grade_first (some _) none later = true
grade_first none (some _) later = false
grade_first _ _ later = later

abbrev pub more_specific : LeavePolicy → LeavePolicy → Bool
more_specific p q = grade_first p.grade q.grade (ltb q.min_service_months p.min_service_months)

-- `min` keeps the first of several least elements.
unfoldable pub least : LeavePolicy → List LeavePolicy → LeavePolicy
least best [] = best
least best (p ∷ ps) = least (if more_specific p best then p else best) ps

abbrev pub least? : List LeavePolicy → Option LeavePolicy
least? [] = none
least? (p ∷ ps) = some (least p ps)

unfoldable pub pick_policy :
    (String → String) → List LeavePolicy → ℕ → Option String → ℕ → Option LeavePolicy
pick_policy upper policies leave_type_id grade months =
    least? (filter (is_candidate leave_type_id (normal_grade upper grade) months) policies)

unfoldable pub carry_over_expiry : ℕ → ℕ → Option Date
carry_over_expiry year expiry_months =
    if leb expiry_months 0
    then none
    else some (date (year + expiry_months / 12) (expiry_months % 12 + 1) 1)

abbrev pub is_working : List Date → Date → Bool
is_working holidays d = ltb (weekday d) 5 && not (any (same_date d) holidays)

-- The ordinal of `date.max`, the 31st of December 9999: the day after it is an OverflowError.
abbrev pub max_ordinal : ℕ
max_ordinal = 3652059

-- How the loop of `working_days` ends; `out_of_fuel` is of the model alone.
pub data Counted : Type 0 where
  counted : ℕ → Counted
  overflow out_of_fuel : Counted

-- The `while` loop of `working_days`.
unfoldable pub count_working : ℕ → Date → Date → List Date → ℕ → Counted
count_working zero current end holidays days = out_of_fuel
count_working (suc fuel) current end holidays days =
    let rest =
      count_working fuel (next_day current) end holidays
        (if is_working holidays current then days + 1 else days) in
    if on_or_before current end
    then if ltb (ordinal current) max_ordinal then rest else overflow
    else counted days

abbrev days_of : Counted → Option ℕ
days_of (counted days) = some days
days_of overflow = none
days_of out_of_fuel = none

-- The days, or none for the OverflowError. One round for each day and one for the last test;
-- `WorkingDays` shows that this is enough.
unfoldable pub working_days : Date → Date → List Date → Option ℕ
working_days start end holidays =
    days_of (count_working (suc (ordinal end + 1 - ordinal start)) start end holidays 0)

unfoldable pub check_range : Date → Date → Option Violation
check_range start end =
    if before end start
    then some Code.invalid_date_range
    else if not (start.year == end.year)
    then some Code.cross_year
    else if ltb max_request_span_days (ordinal end - ordinal start + 1)
    then some Code.range_too_long
    else none

unfoldable pub check_working_days : ℕ → Option Violation
check_working_days days = if leb days 0 then some Code.no_working_days else none

unfoldable pub check_notice : Date → Date → ℕ → Bool → Option Violation
check_notice start today min_notice_days allow_backdated =
    if before start today && not allow_backdated
    then some Code.start_in_past
    else if on_or_before today start && ltb (ordinal start - ordinal today) min_notice_days
    then some (Code.insufficient_notice min_notice_days)
    else none

unfoldable pub check_max_days : ℕ → Option ℕ → Option Violation
check_max_days days none = none
check_max_days days (some max_days) =
    if ltb max_days days then some (Code.exceeds_max_days max_days) else none

unfoldable pub check_balance : ℤ → ℕ → Option Violation
check_balance available days =
    if ltb_ℤ available (pos days) then some (Code.insufficient_balance available days) else none

unfoldable pub check_employee_active : Option EmploymentStatus → Option Violation
check_employee_active none = some Code.employee_not_active
check_employee_active (some status) =
    if is_active_status status then none else some Code.employee_not_active

unfoldable pub check_no_overlap : Bool → Option Violation
check_no_overlap has_overlap = if has_overlap then some Code.overlapping_request else none

-- `none` where the source returns, the error that it raises otherwise.
unfoldable pub ensure_can_cancel : LeaveRequestStatus → Date → Date → Result (Unit {0})
ensure_can_cancel LeaveRequestStatus.pending start today = ok tt
ensure_can_cancel LeaveRequestStatus.approved start today =
    if before today start then ok tt else err (rule_violation Code.cannot_cancel)
ensure_can_cancel _ start today = err (rule_violation Code.cannot_cancel)

unfoldable pub ensure_pending : LeaveRequestStatus → Result (Unit {0})
ensure_pending LeaveRequestStatus.pending = ok tt
ensure_pending _ = err (rule_violation Code.request_not_pending)
