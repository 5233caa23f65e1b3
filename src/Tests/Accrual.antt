-- ===== src/Tests/Accrual.antt =====
-- The jobs on leave balances, for the employees of `company`.
use hrus.Base.{◌≡◌, refl, none, some, List, [], count, filter}
use hrus.Base.Int.{pos, min_ℤ, ◌+ℤ◌, ◌-ℤ◌}
use hrus.Calendar.{ordinal, days_before_year, days_before_month, days_in_month, is_leap}
use hrus.Models.Leave.{LeaveBalance, LeaveType, available}
use hrus.Leave.Accrual.{accrue}
use hrus.Leave.Accrual.Again.{accrue-again}
use hrus.Leave.Accrual.Ledger.{accrue-IsConsistent}
use hrus.Leave.Ledger.{IsConsistent}
use hrus.Leave.Expiry.{expire_balance}
use hrus.Leave.Expiry.Bounds.{expire_balance-available}
use hrus.Leave.JobPlan.{started_ids, plan}
use hrus.Leave.JobPlan.Cover.{occurs, is_in, plan-once}
use hrus.Tests.Rules.{day}
use hrus.Tests.CoreHr.{company, env}
use hrus.Tests.Leave.{approved, approved-IsConsistent}

abbrev by_code : List LeaveType → List LeaveType
by_code ts = ts

accrue-again_example :
    accrue by_code
      (record env { now = 9 })
      1
      0
      99
      (day 2026 5 1)
      (some 51)
      (accrue by_code env 1 0 99 (day 2026 5 1) none approved).0
    ≡ ((accrue by_code env 1 0 99 (day 2026 5 1) none approved).0, [])
accrue-again_example = accrue-again by_code env 9 1 0 99 (day 2026 5 1) none (some 51) approved

accrue-IsConsistent_example :
    IsConsistent (accrue by_code env 1 0 99 (day 2026 5 1) none approved).0
accrue-IsConsistent_example =
    accrue-IsConsistent by_code env 1 0 99 (day 2026 5 1) none approved approved-IsConsistent

-- Six days carried over, of which two are used.
abbrev carried : LeaveBalance
carried = record {
  id = 8;
  tenant_id = 1;
  employee_id = 10;
  leave_type_id = 3;
  year = 2026;
  entitled = pos 12;
  carried_over = pos 6;
  adjusted = pos 0;
  used = pos 2;
  pending = pos 0;
  expired = pos 0;
  carry_over_expires_on = some (day 2026 3 31);
  carry_over_applied_at = some 1;
  carry_over_expired_at = none;
}

expire_balance-available_example :
    available (expire_balance 7 carried) ≡ min_ℤ (available carried) (pos 12 +ℤ pos 0 -ℤ pos 0)
expire_balance-available_example = expire_balance-available 7 carried

started_once : occurs 11 (started_ids 1 (day 2026 5 1) company.employees) ≡ 1
unfolding count started_ids filter ordinal days_before_year days_before_month days_in_month is_leap
started_once = refl

plan-once_example : count (is_in 11) (plan 1 (day 2026 5 1) company.employees) ≡ 1
plan-once_example = plan-once 1 (day 2026 5 1) company.employees 11 started_once
