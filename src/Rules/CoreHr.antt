-- ===== src/Rules/CoreHr.antt =====
-- backend/app/rules/core_hr.py: the hard rules of the core HR data.
use hrus.Base.{
  ℕ, Bool, true, false, not, ◌&&◌, Option, none, some, List, ◌==◌, if◌then◌else◌, holds_id, any,
}
use hrus.Calendar.{Date, before}
use hrus.Errors.{Code, Result, ok, err, rule_violation}
use hrus.Models.CoreHr.{JobAction, EmploymentStatus, is_active_status}

unfoldable pub employment_status_for : JobAction → EmploymentStatus
employment_status_for JobAction.termination = EmploymentStatus.terminated
employment_status_for _ = EmploymentStatus.active

abbrev pub is_hire : JobAction → Bool
is_hire JobAction.hire = true
is_hire _ = false

abbrev pub is_rehire : JobAction → Bool
is_rehire JobAction.rehire = true
is_rehire _ = false

abbrev pub in_sequence : Date → Option Date → Result (Unit {0})
in_sequence effdt none = ok tt
in_sequence effdt (some latest) =
    if before effdt latest then err (rule_violation (Code.effdt_out_of_sequence latest)) else ok tt

unfoldable pub check_new_job_date : JobAction → Date → Date → Option Date → Result (Unit {0})
check_new_job_date action effdt hire_date latest_effdt =
    if is_hire action
    then err (rule_violation Code.hire_only_on_create)
    else if before effdt hire_date
    then err (rule_violation Code.effdt_before_hire)
    else in_sequence effdt latest_effdt

unfoldable pub check_action_transition : JobAction → EmploymentStatus → Result (Unit {0})
check_action_transition action status_before =
    let terminated = not (is_active_status status_before) in
    if is_rehire action && not terminated
    then err (rule_violation Code.rehire_requires_termination)
    else if not (is_rehire action) && terminated
    then err (rule_violation Code.employee_terminated)
    else ok tt

unfoldable pub check_supervisor : ℕ → Option ℕ → Result (Unit {0})
check_supervisor employee_id supervisor_id =
    if holds_id supervisor_id employee_id then err (rule_violation Code.own_supervisor) else ok tt

-- `parent_ancestors` is the new parent with all its ancestors.
unfoldable pub check_org_parent : ℕ → List ℕ → Result (Unit {0})
check_org_parent unit_id parent_ancestors =
    if any (λ a. unit_id == a) parent_ancestors
    then err (rule_violation Code.org_unit_cycle)
    else ok tt
