-- ===== src/Leave/Balances.antt =====
-- backend/app/services/leave_balances.py. The balance of an employee, a leave type and a year is a
-- row of its own, which is created when it is first needed.
use hrus.Base.{
  ℕ, Bool, not, ◌&&◌, Option, none, some, List, [], ◌∷◌, ◌++◌, ◌==◌, String, if◌then◌else◌, find,
  filter, update_first,
}
use hrus.Base.Int.{ℤ, pos, ◌+ℤ◌, ltb_ℤ}
use hrus.Calendar.{Date, date, before}
use hrus.Errors.{Code, not_found, rule_violation}
use hrus.Tx.{Tx, pure, gets, modify, or_raise, raise_if, ◌>>=◌, ◌>>◌}
use hrus.Models.Auth.{AccessClaims}
use hrus.Models.CoreHr.{Employee, EmployeeJob}
use hrus.Models.Leave.{LeaveType, LeavePolicy, LeaveBalance, available}
use hrus.Rules.Leave.{pick_policy, service_months}
use hrus.Db.{Db, Env, new_id, record_audit}
use hrus.CoreHr.JobHistory.{job_as_of}
use hrus.Leave.Config.{get_leave_type}

-- The columns of the unique index of leave_balance.
pub record Key : Type 0 where
  pub tenant_id : ℕ
  pub employee_id : ℕ
  pub leave_type_id : ℕ
  pub year : ℕ

unfoldable pub same_key : Key → Key → Bool
same_key j k =
    j.tenant_id == k.tenant_id
    && j.employee_id == k.employee_id
    && j.leave_type_id == k.leave_type_id
    && j.year == k.year

abbrev pub balance_key : LeaveBalance → Key
balance_key b = record {
  tenant_id = b.tenant_id;
  employee_id = b.employee_id;
  leave_type_id = b.leave_type_id;
  year = b.year;
}

abbrev pub is_balance : Key → LeaveBalance → Bool
is_balance k b = same_key k (balance_key b)

unfoldable pub load_policies : Db → ℕ → ℕ → List LeavePolicy
load_policies db tenant_id leave_type_id =
    filter (λ p. p.tenant_id == tenant_id && p.leave_type_id == leave_type_id) db.leave_policies

abbrev pub grade_of : Option EmployeeJob → Option String
grade_of none = none
grade_of (some j) = some j.grade

abbrev pub annual_days : Option LeavePolicy → ℤ
annual_days none = pos 0
annual_days (some p) = pos p.annual_days

-- `max` on dates
abbrev pub later_date : Date → Date → Date
later_date a b = if before a b then b else a

unfoldable pub entitlement_for : Env → Db → ℕ → Employee → ℕ → ℕ → ℤ
entitlement_for env db tenant_id employee leave_type_id year =
    let reference = later_date (date year 1 1) employee.hire_date in
    let job = job_as_of db.employee_jobs tenant_id employee.id reference in
    annual_days (
      pick_policy env.upper (load_policies db tenant_id leave_type_id) leave_type_id (grade_of job)
        (service_months employee.hire_date reference))

abbrev pub new_balance : ℕ → Key → ℤ → LeaveBalance
new_balance id k entitled = record {
  id = id;
  tenant_id = k.tenant_id;
  employee_id = k.employee_id;
  leave_type_id = k.leave_type_id;
  year = k.year;
  entitled = entitled;
  carried_over = pos 0;
  adjusted = pos 0;
  used = pos 0;
  pending = pos 0;
  expired = pos 0;
  carry_over_applied_at = none;
  carry_over_expires_on = none;
  carry_over_expired_at = none;
}

unfoldable pub is_employee : ℕ → ℕ → Employee → Bool
is_employee tenant_id employee_id e = e.tenant_id == tenant_id && e.id == employee_id

unfoldable pub find_balance : Key → Db → Option LeaveBalance
find_balance k db = find (is_balance k) db.leave_balances

unfoldable pub add_balance : LeaveBalance → Db → Db
add_balance b db = record db { leave_balances = db.leave_balances ++ b ∷ [] }

-- The branch of `get_balance` without a row. The insert meets no conflict: within one transaction
-- the row is known not to be there.
unfoldable pub create_balance : Env → Key → Tx Db LeaveBalance
create_balance env k = do
  found ← gets (λ db. find (is_employee k.tenant_id k.employee_id) db.employees)
  employee ← or_raise not_found found
  entitled ← gets (λ db. entitlement_for env db k.tenant_id employee k.leave_type_id k.year)
  id ← new_id
  let b = new_balance id k entitled
  modify (add_balance b)
  record_audit k.tenant_id none "leave_balance.init" id
  pure b

abbrev pub or_create : Env → Key → Option LeaveBalance → Tx Db LeaveBalance
or_create env k (some b) = pure b
or_create env k none = create_balance env k

unfoldable pub get_balance : Env → Key → Tx Db LeaveBalance
get_balance env k = do found ← gets (find_balance k); or_create env k found

-- A change of the balance that was loaded.
unfoldable pub change_balance : Key → (LeaveBalance → LeaveBalance) → Db → Db
change_balance k f db = record db {
  leave_balances = update_first (is_balance k) f db.leave_balances;
}

pub record BalanceAdjustment : Type 0 where
  pub employee_id : ℕ
  pub leave_type_id : ℕ
  pub year : ℕ
  pub delta : ℤ

abbrev pub adjust : ℤ → LeaveBalance → LeaveBalance
adjust delta b = record b { adjusted = b.adjusted +ℤ delta }

abbrev pub adjustment_key : ℕ → LeaveType → BalanceAdjustment → Key
adjustment_key tenant_id leave_type data' = record {
  tenant_id = tenant_id;
  employee_id = data'.employee_id;
  leave_type_id = leave_type.id;
  year = data'.year;
}

-- The result is the balance after the change, which the API shows.
unfoldable pub adjust_balance : Env → AccessClaims → BalanceAdjustment → Tx Db LeaveBalance
adjust_balance env actor data' = do
  leave_type ← get_leave_type actor.tenant_id data'.leave_type_id
  raise_if (not leave_type.requires_balance) (rule_violation Code.leave_type_without_balance)
  let k = adjustment_key actor.tenant_id leave_type data'
  b ← get_balance env k
  raise_if (ltb_ℤ (available b +ℤ data'.delta) (pos 0))
      (rule_violation (Code.balance_negative (available b)))
  modify (change_balance k (adjust data'.delta))
  record_audit actor.tenant_id (some actor.user_id) "leave_balance.adjust" b.id
  pure (adjust data'.delta b)
