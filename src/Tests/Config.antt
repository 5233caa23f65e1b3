-- ===== src/Tests/Config.antt =====
-- Employees and the leave configuration: services on the tables of `company`.
use hrus.Base.{refl, none, some, [], ◌∷◌, arith, count, any}
use hrus.Tx.{Commits}
use hrus.Models.CoreHr.{EmploymentType}
use hrus.Models.Leave.{HolidayKind}
use hrus.Db.{Db, record_audit}
use hrus.Leave.Balances.{is_employee}
use hrus.CoreHr.Employees.{
  EmployeeCreate, EmployeeUpdate, has_number, has_email, create_employee, update_employee,
}
use hrus.CoreHr.Unique.Free.{IsUnique}
use hrus.CoreHr.Unique.{employees-IsUnique}
use hrus.Leave.Config.Types.{HolidayCreate, has_code}
use hrus.Leave.Config.Policies.{has_rule}
use hrus.Leave.Config.Holidays.{is_holiday, new_holiday, create_holiday}
use hrus.Leave.Config.Keyed.Rows.{IsKeyed}
use hrus.Leave.Config.Keyed.{ConfigStep, ConfigStep-IsKeyed}
use hrus.Tests.Rules.{day}
use hrus.Tests.CoreHr.{person, company, env, boss}

abbrev small : Db
small = record company { employees = person 10 "E10" ∷ [] }

small-IsUnique : IsUnique small
unfolding count is_employee has_number has_email
small-IsUnique = record {
  ids = λ t i. ground arith;
  numbers = λ t n. ground arith;
  emails = λ t e. ground arith;
  fresh = (omega arith, tt);
}

abbrev hire : EmployeeCreate
hire = record {
  employee_number = "E12";
  full_name = "New";
  work_email = some "new@x.id";
  hire_date = day 2026 4 1;
  job = record {
    job_title = "Clerk";
    grade = "S1";
    org_unit_id = 5;
    supervisor_employee_id = some 10;
    employment_type = EmploymentType.contract;
  };
}

abbrev moved : EmployeeUpdate
moved = record { full_name = none; work_email = some (some "ten@x.id") }

employees-IsUnique_example :
    Commits IsUnique (create_employee env boss hire small)
    × Commits IsUnique (update_employee env boss 10 moved small)
employees-IsUnique_example = employees-IsUnique env boss hire 10 moved small small-IsUnique

company-IsKeyed : IsKeyed company
unfolding count has_code has_rule is_holiday
company-IsKeyed = record {
  codes = λ t c. ground arith;
  rules = λ t type months g. ground arith;
  dates = λ t d. omega arith;
}

abbrev holiday : HolidayCreate
holiday = record { holiday_date = day 2026 8 17; name = "Merdeka"; kind = HolidayKind.national }

abbrev with_holiday : Db
with_holiday = record company {
  holidays = new_holiday 1 holiday 100 ∷ [];
  next_id = 101;
  audit_log =
      record { tenant_id = 1; actor_user_id = some 51; action = "holiday.create"; entity_id = 100 }
      ∷ [];
}

holiday_step : ConfigStep env boss company with_holiday
unfolding create_holiday any record_audit
holiday_step =
    ConfigStep.created_holiday company holiday (new_holiday 1 holiday 100) with_holiday refl

ConfigStep-IsKeyed_example : IsKeyed with_holiday
ConfigStep-IsKeyed_example = ConfigStep-IsKeyed holiday_step company-IsKeyed
