-- ===== src/Tests/CoreHr.antt =====
-- Two employees, the second the supervisor of the first, and the operations on their job histories.
use hrus.Base.{
  ℕ, ◌≡◌, refl, true, false, ◌&&◌, Option, none, some, [], ◌∷◌, String, find, filter, any,
  if◌then◌else◌,
}
use hrus.Calendar.{Date, ordinal}
use hrus.Errors.{Result, ok, err}
use hrus.Tx.{Yields}
use hrus.Models.Auth.{AccessClaims, Role}
use hrus.Models.CoreHr.{Employee, EmployeeJob, JobAction, EmploymentStatus, EmploymentType}
use hrus.Models.Leave.{LeaveType}
use hrus.Db.{Db, Env}
use hrus.CoreHr.JobHistory.{job_as_of, in_effect, is_selected, is_member}
use hrus.CoreHr.AddJob.{EmployeeJobCreate, add_job}
use hrus.CoreHr.InEffect.{add_job-in_effect}
use hrus.CoreHr.Candidates.{is_selected-exact}
use hrus.Tests.Rules.{day, policy}

abbrev pub person : ℕ → String → Employee
person id number = record {
  id = id;
  tenant_id = 1;
  employee_number = number;
  full_name = number;
  work_email = none;
  hire_date = day 2024 1 15;
}

abbrev hired : ℕ → ℕ → Option ℕ → EmployeeJob
hired id employee_id supervisor = record {
  id = id;
  tenant_id = 1;
  employee_id = employee_id;
  effdt = day 2024 1 15;
  effseq = 0;
  action = JobAction.hire;
  reason = none;
  job_title = "Clerk";
  grade = "S1";
  org_unit_id = 5;
  supervisor_employee_id = supervisor;
  employment_type = EmploymentType.permanent;
  employment_status = EmploymentStatus.active;
}

abbrev pub annual : LeaveType
annual = record {
  id = 3;
  tenant_id = 1;
  code = "ANNUAL";
  name = "Annual";
  requires_balance = true;
  is_paid = true;
  min_notice_days = 0;
  allow_backdated = false;
  max_days_per_request = none;
  approval_levels = 1;
  is_active = true;
}

abbrev pub company : Db
company = record {
  org_units =
      record {
        id = 5;
        tenant_id = 1;
        code = "OPS";
        name = "Operations";
        parent_id = none;
        manager_employee_id = some 11;
        is_active = true;
      }
      ∷ [];
  employees = person 10 "E10" ∷ person 11 "E11" ∷ [];
  employee_jobs = hired 20 10 (some 11) ∷ hired 21 11 none ∷ [];
  leave_types = annual ∷ [];
  leave_policies = policy 30 none 0 ∷ [];
  holidays = [];
  leave_balances = [];
  leave_requests = [];
  leave_approvals = [];
  audit_log = [];
  next_id = 100;
}

abbrev pub env : Env
env = record { now = 7; today = λ tenant_id. day 2026 4 1; upper = λ s. s; strip = λ s. s }

abbrev pub worker : AccessClaims
worker = record { user_id = 50; tenant_id = 1; roles = Role.employee ∷ []; employee_id = some 10 }

abbrev pub boss : AccessClaims
boss = record { user_id = 51; tenant_id = 1; roles = Role.hr_admin ∷ []; employee_id = some 11 }

abbrev promotion : EmployeeJobCreate
promotion = record {
  effdt = day 2026 4 1;
  action = JobAction.promotion;
  reason = none;
  job_title = some "Chief";
  grade = some "S2";
  org_unit_id = none;
  supervisor_employee_id = none;
  employment_type = none;
}

add_job-in_effect_example :
    Yields
      (λ job db'. job_as_of db'.employee_jobs 1 10 (day 2026 5 1) ≡ (
        if in_effect 1 10 (day 2026 5 1) job
        then some job
        else job_as_of company.employee_jobs 1 10 (day 2026 5 1)))
      (add_job env boss 10 promotion company)
add_job-in_effect_example = add_job-in_effect env boss promotion 1 10 (day 2026 5 1) 10 company

is_selected-exact_example :
    is_selected company.employee_jobs 1 (day 2026 4 1) (some 11) none (person 10 "E10")
    ≡ (true && is_member (some 11) none (job_as_of company.employee_jobs 1 10 (day 2026 4 1)))
is_selected-exact_example =
    is_selected-exact company.employee_jobs 1 (day 2026 4 1) (some 11) none (person 10 "E10")

abbrev grade_of_result : Result (EmployeeJob × Db) → Option String
grade_of_result (ok (job, db)) = some job.grade
grade_of_result (err e) = none

promoted : grade_of_result (add_job env boss 10 promotion company) ≡ some "S2"
unfolding add_job find hrus.Leave.Balances.is_employee hrus.Rules.CoreHr.check_new_job_date ordinal
    hrus.Calendar.days_before_year hrus.Calendar.days_before_month hrus.Calendar.days_in_month
    hrus.Calendar.is_leap hrus.CoreHr.AddJob.max_effdt filter hrus.CoreHr.JobHistory.is_history
    job_as_of hrus.CoreHr.JobHistory.latest hrus.Rules.CoreHr.check_action_transition
    hrus.CoreHr.AddJob.ensure_unit hrus.Rules.CoreHr.check_supervisor
    hrus.CoreHr.AddJob.ensure_supervisor any hrus.CoreHr.AddJob.max_effseq
    hrus.CoreHr.AddJob.next_effseq hrus.Db.record_audit hrus.Rules.CoreHr.employment_status_for
promoted = refl
