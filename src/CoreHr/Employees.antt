-- ===== src/CoreHr/Employees.antt =====
-- backend/app/services/employees.py: employees are created, changed and read. The e-mail address has
-- been normalised by the schema; the row stays in the table that the source's autoflush updates.
use hrus.Base.{
  ℕ, suc, Bool, true, false, not, ◌&&◌, ◌||◌, Option, none, some, [], ◌∷◌, ◌++◌, String, str_eq,
  ◌==◌, holds_id, find, any, update_first,
}
use hrus.Calendar.{Date}
use hrus.Errors.{Code, not_found, conflict}
use hrus.Tx.{Tx, pure, gets, modify, or_raise, raise_if, ◌>>=◌, ◌>>◌}
use hrus.Models.Auth.{Role, AccessClaims, is_hr}
use hrus.Models.CoreHr.{Employee, EmployeeJob, EmploymentType, EmploymentStatus, JobAction}
use hrus.Db.{Db, Env, record_audit}
use hrus.Leave.Balances.{is_employee}
use hrus.CoreHr.JobHistory.{job_as_of}
use hrus.CoreHr.OrgUnits.{ensure_active_org_unit, ensure_employee_exists}

pub record JobFields : Type 0 where
  pub job_title : String
  pub grade : String
  pub org_unit_id : ℕ
  pub supervisor_employee_id : Option ℕ
  pub employment_type : EmploymentType

pub record EmployeeCreate : Type 0 where
  pub employee_number : String
  pub full_name : String
  pub work_email : Option String
  pub hire_date : Date
  pub job : JobFields

-- The address is sent, perhaps as null, or not sent; a name that is null is not sent.
pub record EmployeeUpdate : Type 0 where
  pub full_name : Option String
  pub work_email : Option (Option String)

pub data EmployeeStatus : Type 0 where
  active terminated pre_hire : EmployeeStatus

pub record EmployeeRead : Type 0 where
  pub employee : Employee
  pub status : EmployeeStatus
  pub current_job : Option EmployeeJob

abbrev status_value : EmploymentStatus → EmployeeStatus
status_value EmploymentStatus.active = active
status_value EmploymentStatus.terminated = terminated

abbrev status_of : Option EmployeeJob → EmployeeStatus
status_of none = pre_hire
status_of (some job) = status_value job.employment_status

-- `_to_read`
unfoldable pub to_read : Employee → Option EmployeeJob → EmployeeRead
to_read e job = record { employee = e; status = status_of job; current_job = job }

-- `_read`
unfoldable pub read : ℕ → ℕ → Date → Tx Db EmployeeRead
read tenant_id employee_id as_of = do
  found ← gets (λ db. find (is_employee tenant_id employee_id) db.employees)
  e ← or_raise not_found found
  gets (λ db. to_read e (job_as_of db.employee_jobs tenant_id employee_id as_of))

abbrev is_manager_role : Role → Bool
is_manager_role Role.manager = true
is_manager_role _ = false

-- `viewer.employee_id is not None and job.supervisor_employee_id == viewer.employee_id`
abbrev supervises : Option ℕ → Option EmployeeJob → Bool
supervises none job = false
supervises (some viewer) none = false
supervises (some viewer) (some job) = holds_id job.supervisor_employee_id viewer

-- `_can_view`
unfoldable pub can_view : AccessClaims → EmployeeRead → Bool
can_view viewer e =
    is_hr viewer
    || holds_id viewer.employee_id e.employee.id
    || (any is_manager_role viewer.roles && supervises viewer.employee_id e.current_job)

abbrev or_today : Env → ℕ → Option Date → Date
or_today env tenant_id none = env.today tenant_id
or_today env tenant_id (some d) = d

unfoldable pub get_employee : Env → AccessClaims → ℕ → Option Date → Tx Db EmployeeRead
get_employee env viewer employee_id as_of = do
  e ← read viewer.tenant_id employee_id (or_today env viewer.tenant_id as_of)
  raise_if (not (can_view viewer e)) not_found
  pure e

unfoldable pub has_number : ℕ → String → Employee → Bool
has_number tenant_id number e = e.tenant_id == tenant_id && str_eq e.employee_number number

abbrev pub holds_text : Option String → String → Bool
holds_text none s = false
holds_text (some t) s = str_eq t s

unfoldable pub has_email : ℕ → String → Employee → Bool
has_email tenant_id email e = e.tenant_id == tenant_id && holds_text e.work_email email

abbrev pub other_than : Option ℕ → Employee → Bool
other_than none e = true
other_than (some id) e = not (e.id == id)

-- `_ensure_unique`
abbrev pub number_free : ℕ → Option String → Option ℕ → Tx Db (Unit {0})
number_free tenant_id none exclude_id = pure tt
number_free tenant_id (some number) exclude_id = do
  taken ←
      gets (λ db. any (λ e. has_number tenant_id number e && other_than exclude_id e) db.employees)
  raise_if taken (conflict Code.employee_number_taken)

abbrev pub email_free : ℕ → Option String → Option ℕ → Tx Db (Unit {0})
email_free tenant_id none exclude_id = pure tt
email_free tenant_id (some email) exclude_id = do
  taken ←
      gets (λ db. any (λ e. has_email tenant_id email e && other_than exclude_id e) db.employees)
  raise_if taken (conflict Code.work_email_taken)

unfoldable pub ensure_unique : ℕ → Option String → Option String → Option ℕ → Tx Db (Unit {0})
ensure_unique tenant_id number email exclude_id = do
  number_free tenant_id number exclude_id
  email_free tenant_id email exclude_id

abbrev pub ensure_supervisor : ℕ → Option ℕ → Tx Db (Unit {0})
ensure_supervisor tenant_id none = pure tt
ensure_supervisor tenant_id (some s) = ensure_employee_exists tenant_id s

abbrev pub new_employee : Env → ℕ → EmployeeCreate → ℕ → Employee
new_employee env tenant_id form id = record {
  id = id;
  tenant_id = tenant_id;
  employee_number = env.upper (env.strip form.employee_number);
  full_name = env.strip form.full_name;
  work_email = form.work_email;
  hire_date = form.hire_date;
}

abbrev pub first_job : Env → ℕ → EmployeeCreate → ℕ → ℕ → EmployeeJob
first_job env tenant_id form employee_id id = record {
  id = id;
  tenant_id = tenant_id;
  employee_id = employee_id;
  effdt = form.hire_date;
  effseq = 0;
  action = JobAction.hire;
  reason = none;
  job_title = env.strip form.job.job_title;
  grade = env.strip form.job.grade;
  org_unit_id = form.job.org_unit_id;
  supervisor_employee_id = form.job.supervisor_employee_id;
  employment_type = form.job.employment_type;
  employment_status = EmploymentStatus.active;
}

abbrev pub add_employee : Employee → Db → Db
add_employee e db = record db { employees = db.employees ++ e ∷ []; next_id = suc db.next_id }

abbrev pub add_first_job : EmployeeJob → Db → Db
add_first_job j db = record db {
  employee_jobs = db.employee_jobs ++ j ∷ [];
  next_id = suc db.next_id;
}

unfoldable pub create_employee : Env → AccessClaims → EmployeeCreate → Tx Db EmployeeRead
create_employee env actor form = do
  ensure_unique actor.tenant_id (some (env.upper (env.strip form.employee_number))) form.work_email
      none
  ensure_active_org_unit actor.tenant_id form.job.org_unit_id
  ensure_supervisor actor.tenant_id form.job.supervisor_employee_id
  id ← gets (λ db. db.next_id)
  modify (add_employee (new_employee env actor.tenant_id form id))
  job_id ← gets (λ db. db.next_id)
  modify (add_first_job (first_job env actor.tenant_id form id job_id))
  record_audit actor.tenant_id (some actor.user_id) "employee.create" id
  read actor.tenant_id id (env.today actor.tenant_id)

abbrev pub change_employee : Employee → (Employee → Employee) → Db → Db
change_employee e f db = record db {
  employees = update_first (is_employee e.tenant_id e.id) f db.employees;
}

abbrev pub set_email : ℕ → Employee → Option (Option String) → Tx Db (Unit {0})
set_email tenant_id e none = pure tt
set_email tenant_id e (some email) = do
  ensure_unique tenant_id none email (some e.id)
  modify (change_employee e (λ x. record x { work_email = email }))

abbrev pub set_full_name : Env → Employee → Option String → Tx Db (Unit {0})
set_full_name env e none = pure tt
set_full_name env e (some name) =
    modify (change_employee e (λ x. record x { full_name = env.strip name }))

abbrev same_email : Option String → Option String → Bool
same_email none none = true
same_email (some s) (some t) = str_eq s t
same_email _ _ = false

abbrev email_after : Option String → Option (Option String) → Option String
email_after old none = old
email_after old (some new) = new

abbrev name_after : Env → String → Option String → String
name_after env old none = old
name_after env old (some new) = env.strip new

abbrev pub differs : Env → Employee → EmployeeUpdate → Bool
differs env e form =
    not (same_email (email_after e.work_email form.work_email) e.work_email)
    || not (str_eq (name_after env e.full_name form.full_name) e.full_name)

abbrev pub audit_if : Bool → AccessClaims → ℕ → Tx Db (Unit {0})
audit_if true actor id = record_audit actor.tenant_id (some actor.user_id) "employee.update" id
audit_if false actor id = pure tt

unfoldable pub update_employee : Env → AccessClaims → ℕ → EmployeeUpdate → Tx Db EmployeeRead
update_employee env actor employee_id form = do
  found ← gets (λ db. find (is_employee actor.tenant_id employee_id) db.employees)
  e ← or_raise not_found found
  set_email actor.tenant_id e form.work_email
  set_full_name env e form.full_name
  audit_if (differs env e form) actor e.id
  read actor.tenant_id e.id (env.today actor.tenant_id)
