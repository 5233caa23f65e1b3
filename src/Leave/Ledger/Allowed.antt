-- ===== src/Leave/Ledger/Allowed.antt =====
-- What a request must be like for `_evaluate` to find nothing against it, check by check.
use hrus.Base.{
  ◌+◌, ◌≤◌, All, ℕ, ◌≡◌, ◌⊎◌, refl, Bool, true, false, Option, none, some, inl, inr, arith, find,
  any, List, [], ◌∷◌, ◌<◌, Bool-cases,
}
use hrus.Base.Int.{pos, ◌≤ℤ◌}
use hrus.Calendar.{Date, ordinal, before}
use hrus.Models.CoreHr.{EmployeeJob, EmploymentStatus}
use hrus.CoreHr.JobHistory.{job_as_of}
use hrus.Models.Leave.{
  LeaveType, LeaveBalance, LeaveRequest, LeaveRequestStatus, available, is_active,
}
use hrus.Rules.Leave.{
  check_range, working_days, check_working_days, check_balance, check_no_overlap,
  check_employee_active, check_notice, check_max_days,
}
use hrus.Db.{Db, Env}
use hrus.Leave.Config.{is_leave_type, holidays_between}
use hrus.Leave.Balances.{Key, balance_key, find_balance}
use hrus.Leave.Requests.Evaluate.{
  LeaveRequestInput, Evaluation, input_key, conflicts, overlaps, status_of, balance_violation,
  inactive_type,
}

-- The balance at hand is the row of the key, where the leave type requires one.
abbrev pub HoldsRow : Key → Db → Bool → Option LeaveBalance → Type 0
HoldsRow k db true (some b) = (balance_key b ≡ k) × (find_balance k db ≡ some b)
HoldsRow k db true none = ⊥
HoldsRow k db false none = Unit
HoldsRow k db false (some b) = ⊥

-- A request that is waiting or approved, of the same employee, with a day in common. Longer requests
-- than the longest span are not looked for.
pub record IsClash (tenant_id employee_id : ℕ) (start end : Date) (r : LeaveRequest) : Type 0 where
  pub tenant : r.tenant_id ≡ tenant_id
  pub employee : r.employee_id ≡ employee_id
  pub live : (r.status ≡ LeaveRequestStatus.pending) ⊎ (r.status ≡ LeaveRequestStatus.approved)
  pub begins : ordinal r.start_date ≤ ordinal end
  pub ends : ordinal start ≤ ordinal r.end_date
  pub near : ordinal start < ordinal r.start_date + 184

abbrev Funds : Key → Db → ℕ → Option LeaveBalance → Type 0
Funds k db days none = ⊥
Funds k db days (some b) = (find_balance k db ≡ some b) × (pos days ≤ℤ available b)

-- The stored balance of the year has the days available, where the leave type requires one.
abbrev pub IsFunded : Bool → Key → Db → ℕ → Option LeaveBalance → Type 0
IsFunded true k db days o = Funds k db days o
IsFunded false k db days o = Unit

abbrev IsWithin : ℕ → Option ℕ → Type 0
IsWithin days none = Unit
IsWithin days (some most) = days ≤ most

abbrev IsEmployed : Option EmployeeJob → Type 0
IsEmployed none = ⊥
IsEmployed (some j) = j.employment_status ≡ EmploymentStatus.active

-- What a valid evaluation says of the request, from the tables that it read.
pub record IsAllowed (env : Env) (tenant_id employee_id : ℕ) (data' : LeaveRequestInput) (db : Db)
    (ev : Evaluation) (db' : Db) : Type 0 where
  pub of_type :
      find (is_leave_type tenant_id data'.leave_type_id) db.leave_types ≡ some ev.leave_type
  pub offered : ev.leave_type.is_active ≡ true
  pub in_order : ordinal data'.start_date ≤ ordinal data'.end_date
  pub same_year : data'.start_date.year ≡ data'.end_date.year
  pub short : ordinal data'.end_date < ordinal data'.start_date + 184
  pub counted :
      working_days data'.start_date data'.end_date
        (holidays_between db tenant_id data'.start_date data'.end_date)
      ≡ some ev.result.days
  pub positive : 0 < ev.result.days
  pub employed : IsEmployed (job_as_of db.employee_jobs tenant_id employee_id data'.start_date)
  pub noticed :
      ((ordinal data'.start_date < ordinal (env.today tenant_id))
        × (ev.leave_type.allow_backdated ≡ true))
      ⊎ (ordinal (env.today tenant_id) + ev.leave_type.min_notice_days ≤ ordinal data'.start_date)
  pub within : IsWithin ev.result.days ev.leave_type.max_days_per_request
  pub clear :
      All (λ r. ¬ IsClash tenant_id employee_id data'.start_date data'.end_date r) db.leave_requests
  pub funded :
      IsFunded ev.leave_type.requires_balance
        (input_key tenant_id employee_id ev.leave_type data')
        db'
        ev.result.days
        ev.balance

pub check_working_days-none : (days : ℕ) → check_working_days days ≡ none → 0 < days
unfolding check_working_days
check_working_days-none days h = ground arith

pub check_range-none :
    (start end : Date)
    → check_range start end ≡ none
    → (ordinal start ≤ ordinal end) × (start.year ≡ end.year) × (ordinal end < ordinal start + 184)
unfolding check_range
check_range-none start end h = ground (arith, h)

pub check_employee_active-none :
    (job : Option EmployeeJob) → check_employee_active (status_of job) ≡ none → IsEmployed job
unfolding check_employee_active
check_employee_active-none none h = cc
check_employee_active-none (some j) h = by_status j.employment_status h
  where
    by_status :
        (s : EmploymentStatus) → check_employee_active (some s) ≡ none → s ≡ EmploymentStatus.active
    by_status EmploymentStatus.active e = refl
    by_status EmploymentStatus.terminated e = cc

pub check_notice-none :
    (start today : Date) (days : ℕ) (backdated : Bool)
    → check_notice start today days backdated ≡ none
    → ((ordinal start < ordinal today) × (backdated ≡ true))
      ⊎ (ordinal today + days ≤ ordinal start)
unfolding check_notice
check_notice-none start today days true h = elim (Bool-cases (before start today)) [
  | inl past ↦ inl (ground (arith, past), refl)
  | inr ahead ↦ inr (ground (arith, h, ahead))
]
check_notice-none start today days false h = inr (ground (arith, h))

pub check_max_days-none :
    (days : ℕ) (most : Option ℕ) → check_max_days days most ≡ none → IsWithin days most
unfolding check_max_days
check_max_days-none days none h = tt
check_max_days-none days (some most) h = ground (arith, h)

pub check_no_overlap-none : (b : Bool) → check_no_overlap b ≡ none → b ≡ false
unfolding check_no_overlap
check_no_overlap-none b h = ground arith

pub inactive_type-none : (t : LeaveType) → inactive_type t ≡ none → t.is_active ≡ true
inactive_type-none t h = ground arith

live-is_active :
    (s : LeaveRequestStatus)
    → (s ≡ LeaveRequestStatus.pending) ⊎ (s ≡ LeaveRequestStatus.approved)
    → is_active s ≡ true
live-is_active s (inl e) = rw e refl
live-is_active s (inr e) = rw e refl

IsClash-conflicts :
    (tenant_id employee_id : ℕ) (start end : Date) (r : LeaveRequest)
    → IsClash tenant_id employee_id start end r
    → conflicts tenant_id employee_id start end r ≡ true
unfolding conflicts overlaps
IsClash-conflicts t e start end r c =
    ground (arith, c.tenant, c.employee, live-is_active r.status c.live, c.begins, c.ends, c.near)

pub conflicts-none :
    (tenant_id employee_id : ℕ) (start end : Date) (rs : List LeaveRequest)
    → any (conflicts tenant_id employee_id start end) rs ≡ false
    → All (λ r. ¬ IsClash tenant_id employee_id start end r) rs
unfolding any
conflicts-none t e start end [] h = tt
conflicts-none t e start end (r ∷ rs) h = (
  λ clash. absurd (ground (arith, h, IsClash-conflicts t e start end r clash)),
  conflicts-none t e start end rs (ground (arith, h)),
)

pub balance_violation-none :
    (needed : Bool) (k : Key) (o : Option LeaveBalance) (days : ℕ) (db : Db)
    → HoldsRow k db needed o
    → balance_violation o days ≡ none
    → IsFunded needed k db days o
unfolding check_balance
balance_violation-none false k o days db row h = tt
balance_violation-none true k none days db row h = row
balance_violation-none true k (some b) days db row h = (row.1, ground arith)
