-- ===== src/CoreHr/JobHistory.antt =====
-- backend/app/services/employees.py: which row of the job history is in effect on a date, and
-- which employees are active on it.
use hrus.Base.{
  ℕ, Bool, true, false, ◌&&◌, ◌||◌, Option, none, some, List, [], ◌∷◌, map, ltb, ◌==◌,
  if◌then◌else◌, holds_id, any, filter,
}
use hrus.Calendar.{Date, before, on_or_before, same_date}
use hrus.Models.CoreHr.{Employee, EmployeeJob, is_active_status}
use hrus.Db.{Db}

-- `ORDER BY effdt DESC, effseq DESC`: `k` comes before `j`.
abbrev pub supersedes : EmployeeJob → EmployeeJob → Bool
supersedes k j = before j.effdt k.effdt || (same_date j.effdt k.effdt && ltb j.effseq k.effseq)

abbrev pub later_of : EmployeeJob → Option EmployeeJob → Option EmployeeJob
later_of j none = some j
later_of j (some k) = if supersedes k j then some k else some j

-- … `LIMIT 1`
unfoldable pub latest : List EmployeeJob → Option EmployeeJob
latest [] = none
latest (j ∷ js) = later_of j (latest js)

-- The rows of an employee.
unfoldable pub is_history : ℕ → ℕ → EmployeeJob → Bool
is_history tenant_id employee_id j = j.tenant_id == tenant_id && j.employee_id == employee_id

abbrev pub in_effect : ℕ → ℕ → Date → EmployeeJob → Bool
in_effect tenant_id employee_id as_of j =
    is_history tenant_id employee_id j && on_or_before j.effdt as_of

-- `job_as_of`, on the rows of the table.
unfoldable pub job_as_of : List EmployeeJob → ℕ → ℕ → Date → Option EmployeeJob
job_as_of jobs tenant_id employee_id as_of =
    latest (filter (in_effect tenant_id employee_id as_of) jobs)

-- A filter that is not given lets every row pass.
abbrev pub matches_id : Option ℕ → Option ℕ → Bool
matches_id none value = true
matches_id (some k) value = holds_id value k

abbrev pub is_member : Option ℕ → Option ℕ → Option EmployeeJob → Bool
is_member supervisor_id org_unit_id none = false
is_member supervisor_id org_unit_id (some j) =
    is_active_status j.employment_status
    && matches_id supervisor_id j.supervisor_employee_id
    && matches_id org_unit_id (some j.org_unit_id)

-- The subquery `candidates`: employees with some row, at any time, of that supervisor and unit.
abbrev pub is_candidate : List EmployeeJob → ℕ → Option ℕ → Option ℕ → ℕ → Bool
is_candidate jobs tenant_id supervisor_id org_unit_id employee_id =
    any
      (λ j.
        is_history tenant_id employee_id j
        && matches_id supervisor_id j.supervisor_employee_id
        && matches_id org_unit_id (some j.org_unit_id))
      jobs

abbrev pub no_filter : Option ℕ → Option ℕ → Bool
no_filter none none = true
no_filter _ _ = false

unfoldable pub is_selected : List EmployeeJob → ℕ → Date → Option ℕ → Option ℕ → Employee → Bool
is_selected jobs tenant_id as_of supervisor_id org_unit_id e =
    e.tenant_id == tenant_id
    && is_member supervisor_id org_unit_id (job_as_of jobs tenant_id e.id as_of)
    && (no_filter supervisor_id org_unit_id
        || is_candidate jobs tenant_id supervisor_id org_unit_id e.id)

-- `employees_as_of_query`: the ids of the employees that it selects.
unfoldable pub employees_as_of : Db → ℕ → Date → Option ℕ → Option ℕ → List ℕ
employees_as_of db tenant_id as_of supervisor_id org_unit_id =
    map (λ (e : Employee). e.id)
      (filter (is_selected db.employee_jobs tenant_id as_of supervisor_id org_unit_id) db.employees)
