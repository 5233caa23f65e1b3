-- ===== src/CoreHr/AddJob.antt =====
-- backend/app/services/employees.py, `add_job`: a row is added to an employee's job history. The row
-- lock on the employee makes the calls for one employee follow one another.
use hrus.Base.{
  ℕ, suc, ◌&&◌, Option, none, some, List, [], ◌∷◌, ◌++◌, String, str_eq, ltb, if◌then◌else◌, find,
  filter, holds_id,
}
use hrus.Calendar.{Date, before, same_date}
use hrus.Errors.{Result, ok, err, not_found}
use hrus.Tx.{Tx, pure, raise, gets, modify, or_raise, ◌>>=◌, ◌>>◌}
use hrus.Models.Auth.{AccessClaims}
use hrus.Models.CoreHr.{Employee, EmployeeJob, JobAction, EmploymentType}
use hrus.Rules.CoreHr.{
  check_new_job_date, check_action_transition, check_supervisor, employment_status_for,
}
use hrus.Db.{Db, Env, record_audit}
use hrus.Leave.Balances.{is_employee}
use hrus.CoreHr.JobHistory.{is_history, job_as_of}
use hrus.CoreHr.OrgUnits.{ensure_active_org_unit, ensure_employee_exists}

-- `EmployeeJobCreate`; the supervisor is sent, perhaps as null, or not sent.
pub record EmployeeJobCreate : Type 0 where
  pub effdt : Date
  pub action : JobAction
  pub reason : Option String
  pub job_title : Option String
  pub grade : Option String
  pub org_unit_id : Option ℕ
  pub supervisor_employee_id : Option (Option ℕ)
  pub employment_type : Option EmploymentType

abbrev pub later_effdt : Date → Option Date → Date
later_effdt d none = d
later_effdt d (some e) = if before d e then e else d

-- `func.max(EmployeeJob.effdt)`
unfoldable pub max_effdt : List EmployeeJob → Option Date
max_effdt [] = none
max_effdt (j ∷ js) = some (later_effdt j.effdt (max_effdt js))

abbrev pub greater_seq : ℕ → Option ℕ → ℕ
greater_seq m none = m
greater_seq m (some n) = if ltb m n then n else m

-- `func.max(EmployeeJob.effseq)`
unfoldable pub max_effseq : List EmployeeJob → Option ℕ
max_effseq [] = none
max_effseq (j ∷ js) = some (greater_seq j.effseq (max_effseq js))

abbrev pub next_seq : Option ℕ → ℕ
next_seq none = 0
next_seq (some n) = suc n

-- `value or previous`
abbrev pub or_previous {ℓ} : {A : Type ℓ} → Option A → A → A
or_previous none previous = previous
or_previous (some a) previous = a

abbrev or_text : Option String → String → String
or_text none previous = previous
or_text (some s) previous = if str_eq s "" then previous else s

abbrev stripped_reason : (String → String) → Option String → Option String
stripped_reason strip none = none
stripped_reason strip (some s) = if str_eq s "" then none else some (strip s)

abbrev pub lift : {A : Type 0} → Result A → Tx Db A
lift (ok a) = pure a
lift (err e) = raise e

-- A supervisor that changes must exist.
unfoldable pub ensure_supervisor : ℕ → Option ℕ → Option ℕ → Tx Db (Unit {0})
ensure_supervisor tenant_id none previous = pure tt
ensure_supervisor tenant_id (some s) previous =
    if holds_id previous s then pure tt else ensure_employee_exists tenant_id s

unfoldable pub ensure_unit : ℕ → Option ℕ → Tx Db (Unit {0})
ensure_unit tenant_id none = pure tt
ensure_unit tenant_id (some unit) = ensure_active_org_unit tenant_id unit

abbrev pub new_job : Env → ℕ → ℕ → EmployeeJobCreate → EmployeeJob → ℕ → ℕ → EmployeeJob
new_job env tenant_id employee_id data' previous effseq id = record {
  id = id;
  tenant_id = tenant_id;
  employee_id = employee_id;
  effdt = data'.effdt;
  effseq = effseq;
  action = data'.action;
  reason = stripped_reason env.strip data'.reason;
  job_title = env.strip (or_text data'.job_title previous.job_title);
  grade = env.strip (or_text data'.grade previous.grade);
  org_unit_id = or_previous data'.org_unit_id previous.org_unit_id;
  supervisor_employee_id = or_previous data'.supervisor_employee_id previous.supervisor_employee_id;
  employment_type = or_previous data'.employment_type previous.employment_type;
  employment_status = employment_status_for data'.action;
}

-- The number after those of the rows of that date.
unfoldable pub next_effseq : List EmployeeJob → ℕ → ℕ → Date → ℕ
next_effseq jobs tenant_id employee_id effdt =
    next_seq (
      max_effseq (filter (λ j. is_history tenant_id employee_id j && same_date j.effdt effdt) jobs))

abbrev pub insert_job : EmployeeJob → Db → Db
insert_job job db = record db {
  employee_jobs = db.employee_jobs ++ job ∷ [];
  next_id = suc db.next_id;
}

module _ (env : Env) (actor : AccessClaims) (employee : Employee) (data' : EmployeeJobCreate) where
  -- From the row in effect before to the new one.
  abbrev pub add_after : EmployeeJob → Tx Db EmployeeJob
  add_after previous = do
    lift (check_action_transition data'.action previous.employment_status)
    ensure_unit actor.tenant_id data'.org_unit_id
    let supervisor = or_previous data'.supervisor_employee_id previous.supervisor_employee_id
    lift (check_supervisor employee.id supervisor)
    ensure_supervisor actor.tenant_id supervisor previous.supervisor_employee_id
    db ← gets (λ db. db)
    let effseq = next_effseq db.employee_jobs actor.tenant_id employee.id data'.effdt
    let job = new_job env actor.tenant_id employee.id data' previous effseq db.next_id
    modify (insert_job job)
    record_audit actor.tenant_id (some actor.user_id) "employee_job.create" employee.id
    pure job

  abbrev pub add_for : Tx Db EmployeeJob
  add_for = do
    jobs ← gets (λ db. db.employee_jobs)
    lift (
        check_new_job_date data'.action data'.effdt employee.hire_date
          (max_effdt (filter (is_history actor.tenant_id employee.id) jobs)))
    previous ← or_raise not_found (job_as_of jobs actor.tenant_id employee.id data'.effdt)
    add_after previous

unfoldable pub add_job : Env → AccessClaims → ℕ → EmployeeJobCreate → Tx Db EmployeeJob
add_job env actor employee_id data' = do
  found ← gets (λ db. find (is_employee actor.tenant_id employee_id) db.employees)
  employee ← or_raise not_found found
  add_for env actor employee data'
