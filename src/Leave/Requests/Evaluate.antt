-- ===== src/Leave/Requests/Evaluate.antt =====
-- `_evaluate`, which `validate` and `submit` share: all checks of a request at once.
use hrus.Base.{
  ℕ, ◌+◌, Bool, true, false, not, ◌&&◌, Option, none, some, List, [], ◌∷◌, map, ltb, ◌==◌,
  if◌then◌else◌, any, filter, length, String,
}
use hrus.Base.Int.{ℤ, pos, ◌-ℤ◌}
use hrus.Calendar.{Date, ordinal, on_or_before}
use hrus.Errors.{Code, unexpected, rule_violation}
use hrus.Tx.{Tx, pure, gets, or_raise, ◌>>=◌}
use hrus.Models.Auth.{AccessClaims}
use hrus.Models.CoreHr.{EmployeeJob, EmploymentStatus}
use hrus.Models.Leave.{
  LeaveType, LeaveBalance, LeaveRequest, TeamOverlapWarning, available, is_active,
  max_request_span_days,
}
use hrus.Rules.Leave.{
  Violation, working_days, check_range, check_working_days, check_employee_active, check_notice,
  check_max_days, check_no_overlap, check_balance,
}
use hrus.Db.{Db, Env}
use hrus.CoreHr.JobHistory.{job_as_of, employees_as_of}
use hrus.Leave.Config.{get_leave_type, holidays_between}
use hrus.Leave.Balances.{Key, get_balance}

pub record LeaveRequestInput : Type 0 where
  pub leave_type_id : ℕ
  pub start_date : Date
  pub end_date : Date
  pub reason : Option String

pub record BalancePreview : Type 0 where
  pub available_before : ℤ
  pub available_after : ℤ

pub record LeaveValidationResult : Type 0 where
  pub valid : Bool
  pub days : ℕ
  pub errors : List Violation
  pub warnings : List TeamOverlapWarning
  pub balance : Option BalancePreview

pub record Evaluation : Type 0 where
  pub result : LeaveValidationResult
  pub leave_type : LeaveType
  pub balance : Option LeaveBalance

-- `_overlaps` on the dates of a request: `start_date > start - 184 days` is written without
-- subtraction.
unfoldable pub overlaps : Date → Date → LeaveRequest → Bool
overlaps start end r =
    on_or_before r.start_date end
    && on_or_before start r.end_date
    && ltb (ordinal start) (ordinal r.start_date + max_request_span_days)

-- `_ACTIVE` requests of an employee that overlap the dates.
unfoldable pub conflicts : ℕ → ℕ → Date → Date → LeaveRequest → Bool
conflicts tenant_id employee_id start end r =
    r.tenant_id == tenant_id
    && r.employee_id == employee_id
    && is_active r.status
    && overlaps start end r

unfoldable pub distinct : List ℕ → List ℕ
distinct [] = []
distinct (x ∷ xs) = let rest = distinct xs in if any (λ y. x == y) rest then rest else x ∷ rest

abbrev contains : List ℕ → ℕ → Bool
contains xs x = any (λ y. x == y) xs

-- The distinct employees of the team, other than the employee, with an active request in the dates.
unfoldable pub colleagues_on_leave : Db → ℕ → ℕ → List ℕ → Date → Date → ℕ
colleagues_on_leave db tenant_id employee_id team start end = length (
    distinct (
      map (λ (r : LeaveRequest). r.employee_id)
        (filter
          (λ r.
            r.tenant_id == tenant_id
            && contains team r.employee_id
            && not (r.employee_id == employee_id)
            && is_active r.status
            && overlaps start end r)
          db.leave_requests)))

abbrev warn : ℕ → List TeamOverlapWarning
warn n = if n == 0 then [] else record { colleagues_on_leave = n } ∷ []

abbrev supervisor_of : Option EmployeeJob → Option ℕ
supervisor_of none = none
supervisor_of (some j) = j.supervisor_employee_id

abbrev overlap_under : Db → ℕ → ℕ → Date → Date → Option ℕ → List TeamOverlapWarning
overlap_under db tenant_id employee_id start end none = []
overlap_under db tenant_id employee_id start end (some supervisor) = warn (
    colleagues_on_leave db tenant_id employee_id
      (employees_as_of db tenant_id start (some supervisor) none) start end)

unfoldable pub team_overlap :
    Db → ℕ → ℕ → Option EmployeeJob → Date → Date → List TeamOverlapWarning
team_overlap db tenant_id employee_id job start end =
    overlap_under db tenant_id employee_id start end (supervisor_of job)

-- The violations that `add` keeps, in order.
unfoldable pub collect : List (Option Violation) → List Violation
collect [] = []
collect (none ∷ vs) = collect vs
collect (some v ∷ vs) = v ∷ collect vs

abbrev pub is_empty : List Violation → Bool
is_empty [] = true
is_empty (_ ∷ _) = false

unfoldable pub to_result :
    ℕ → List Violation → List TeamOverlapWarning → Option BalancePreview → LeaveValidationResult
to_result days errors warnings balance = record {
  valid = is_empty errors;
  days = days;
  errors = errors;
  warnings = warnings;
  balance = balance;
}

abbrev pub input_key : ℕ → ℕ → LeaveType → LeaveRequestInput → Key
input_key tenant_id employee_id leave_type data' = record {
  tenant_id = tenant_id;
  employee_id = employee_id;
  leave_type_id = leave_type.id;
  year = data'.start_date.year;
}

-- The balance, if the leave type requires one.
unfoldable pub balance_for : Env → Bool → Key → Tx Db (Option LeaveBalance)
balance_for env false k = pure none
balance_for env true k = do b ← get_balance env k; pure (some b)

abbrev pub balance_violation : Option LeaveBalance → ℕ → Option Violation
balance_violation none days = none
balance_violation (some b) days = check_balance (available b) days

abbrev pub preview : Option LeaveBalance → ℕ → Option BalancePreview
preview none days = none
preview (some b) days =
    some (record { available_before = available b; available_after = available b -ℤ pos days })

abbrev pub status_of : Option EmployeeJob → Option EmploymentStatus
status_of none = none
status_of (some j) = some j.employment_status

abbrev pub inactive_type : LeaveType → Option Violation
inactive_type leave_type = if leave_type.is_active then none else some Code.leave_type_inactive

-- The checks of a request whose range is right; the OverflowError of `working_days` is unexpected.
unfoldable pub evaluate_range : Env → ℕ → ℕ → LeaveType → LeaveRequestInput → Tx Db Evaluation
evaluate_range env tenant_id employee_id leave_type data' = do
  db ← gets (λ db. db)
  let start = data'.start_date
  let end = data'.end_date
  days ← or_raise unexpected (working_days start end (holidays_between db tenant_id start end))
  let job = job_as_of db.employee_jobs tenant_id employee_id start
  let overlap = any (conflicts tenant_id employee_id start end) db.leave_requests
  balance ←
      balance_for env leave_type.requires_balance (input_key tenant_id employee_id leave_type data')
  let errors = collect (
      inactive_type leave_type
      ∷ check_working_days days
      ∷ check_employee_active (status_of job)
      ∷ check_notice start (env.today tenant_id) leave_type.min_notice_days
          leave_type.allow_backdated
      ∷ check_max_days days leave_type.max_days_per_request
      ∷ check_no_overlap overlap
      ∷ balance_violation balance days
      ∷ [])
  let warnings = team_overlap db tenant_id employee_id job start end
  pure (record {
    result = to_result days errors warnings (preview balance days);
    leave_type = leave_type;
    balance = balance;
  })

abbrev pub in_range :
    Env → ℕ → ℕ → LeaveType → LeaveRequestInput → Option Violation → Tx Db Evaluation
in_range env tenant_id employee_id leave_type data' none =
    evaluate_range env tenant_id employee_id leave_type data'
in_range env tenant_id employee_id leave_type data' (some range_error) = pure (record {
  result = to_result 0 (collect (inactive_type leave_type ∷ some range_error ∷ [])) [] none;
  leave_type = leave_type;
  balance = none;
})

unfoldable pub evaluate : Env → AccessClaims → LeaveRequestInput → Tx Db Evaluation
evaluate env actor data' = do
  employee_id ← or_raise (rule_violation Code.no_employee_profile) actor.employee_id
  leave_type ← get_leave_type actor.tenant_id data'.leave_type_id
  in_range env actor.tenant_id employee_id leave_type data'
      (check_range data'.start_date data'.end_date)

unfoldable pub validate : Env → AccessClaims → LeaveRequestInput → Tx Db LeaveValidationResult
validate env actor data' = do evaluation ← evaluate env actor data'; pure evaluation.result
