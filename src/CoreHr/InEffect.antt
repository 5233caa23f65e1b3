-- ===== src/CoreHr/InEffect.antt =====
-- backend/app/services/employees.py: the row that `add_job` adds is the one in effect from its date
-- on, and the history before it stays as it was.
use hrus.Base.{ℕ, ◌≡◌, refl, ◌≤◌, Option, none, some, arith, filter, find, if◌then◌else◌}
use hrus.Calendar.{Date, ordinal}
use hrus.Errors.{Result, ok, err, not_found}
use hrus.Tx.{or_raise, Yields, Yields-read, or_raise-Yields}
use hrus.Models.Auth.{AccessClaims}
use hrus.Models.CoreHr.{Employee, EmployeeJob, JobAction}
use hrus.Leave.Balances.{is_employee}
use hrus.Rules.CoreHr.{check_action_transition, check_supervisor, check_new_job_date}
use hrus.Db.{Db, Env, record_audit}
use hrus.CoreHr.JobHistory.{is_history, in_effect, job_as_of}
use hrus.CoreHr.OrgUnits.{ensure_active_org_unit, ensure_employee_exists}
use hrus.CoreHr.AddJob.{
  or_previous, EmployeeJobCreate, max_effdt, next_effseq, new_job, insert_job, lift, add_after,
  add_for, add_job, ensure_unit, ensure_supervisor,
}
use hrus.CoreHr.Newest.{
  IsWithin, in_sequence-IsWithin, max_effdt-bounds, max_effseq-bounds, next_seq-IsWithin,
  superseded, found_after, job_as_of-added,
}

lift-Yields :
    {A : Type 0} (x : Result A) (db : Db) → Yields (λ a s. (s ≡ db) × (x ≡ ok a)) (lift x db)
lift-Yields (ok a) db = (refl, refl)
lift-Yields (err e) db = tt

ensure_unit-reads :
    (t : ℕ) (unit : Option ℕ) (db : Db)
    → Yields (λ _ s. (s ≡ db) × Unit {0}) (ensure_unit t unit db)
unfolding ensure_unit ensure_active_org_unit
ensure_unit-reads t none db = (refl, tt)
ensure_unit-reads t (some u) db = ground arith

ensure_supervisor-reads :
    (t : ℕ) (s p : Option ℕ) (db : Db)
    → Yields (λ _ s'. (s' ≡ db) × Unit {0}) (ensure_supervisor t s p db)
unfolding ensure_supervisor ensure_employee_exists
ensure_supervisor-reads t none p db = (refl, tt)
ensure_supervisor-reads t (some s) p db = ground arith

-- The dates were checked.
check_new_job_date-IsWithin :
    (action : JobAction) (d hired : Date) (o : Option Date)
    → check_new_job_date action d hired o ≡ ok tt
    → IsWithin (λ e. ordinal e ≤ ordinal d) o
unfolding check_new_job_date
check_new_job_date-IsWithin action d hired o h = in_sequence-IsWithin d o (ground arith)

module _ (env : Env) (actor : AccessClaims) (data' : EmployeeJobCreate) (t e : ℕ)
    (as_of : Date) where
  abbrev Answers : Db → EmployeeJob → Db → Type 0
  Answers db job db' =
      job_as_of db'.employee_jobs t e as_of ≡ found_after db.employee_jobs job t e as_of

  new_job-Answers :
      (employee : Employee) (previous : EmployeeJob) (db : Db)
      → IsWithin
          (λ x. ordinal x ≤ ordinal data'.effdt)
          (max_effdt (filter (is_history actor.tenant_id employee.id) db.employee_jobs))
      → (let n = next_effseq db.employee_jobs actor.tenant_id employee.id data'.effdt in
          let job = new_job env actor.tenant_id employee.id data' previous n db.next_id in
          Answers db job (insert_job job db))
  unfolding next_effseq
  new_job-Answers employee previous db h =
      let n = next_effseq db.employee_jobs actor.tenant_id employee.id data'.effdt in
      let job = new_job env actor.tenant_id employee.id data' previous n db.next_id in
      job_as_of-added t e as_of job db.employee_jobs (
        superseded actor.tenant_id employee.id data'.effdt job n db.employee_jobs refl refl
          (max_effdt-bounds (is_history actor.tenant_id employee.id) data'.effdt db.employee_jobs h)
          (max_effseq-bounds _ n db.employee_jobs (next_seq-IsWithin _)))

  add_after-Answers :
      (employee : Employee) (previous : EmployeeJob) (db : Db)
      → IsWithin
          (λ x. ordinal x ≤ ordinal data'.effdt)
          (max_effdt (filter (is_history actor.tenant_id employee.id) db.employee_jobs))
      → Yields (Answers db) (add_after env actor employee data' previous db)
  unfolding record_audit
  add_after-Answers employee previous db h =
      let supervisor = or_previous data'.supervisor_employee_id previous.supervisor_employee_id in
      Yields-read (Answers db) _
        (lift (check_action_transition data'.action previous.employment_status)) _ db
        (lift-Yields _ db)
        λ _ _.
          Yields-read (Answers db) _ (ensure_unit actor.tenant_id data'.org_unit_id) _ db
            (ensure_unit-reads actor.tenant_id data'.org_unit_id db)
            λ _ _.
              Yields-read (Answers db) _ (lift (check_supervisor employee.id supervisor)) _ db
                (lift-Yields _ db)
                λ _ _.
                  Yields-read (Answers db) _
                    (ensure_supervisor actor.tenant_id supervisor previous.supervisor_employee_id) _
                    db
                    (ensure_supervisor-reads actor.tenant_id supervisor
                      previous.supervisor_employee_id db)
                    λ _ _. new_job-Answers employee previous db h

  add_for-Answers :
      (employee : Employee) (db : Db) → Yields (Answers db) (add_for env actor employee data' db)
  add_for-Answers employee db =
      let latest_effdt =
        max_effdt (filter (is_history actor.tenant_id employee.id) db.employee_jobs) in
      Yields-read (Answers db) _
        (lift (check_new_job_date data'.action data'.effdt employee.hire_date latest_effdt)) _ db
        (lift-Yields _ db)
        λ _ checked.
          Yields-read (Answers db) _
            (or_raise not_found
              (job_as_of db.employee_jobs actor.tenant_id employee.id data'.effdt))
            _ db (or_raise-Yields _ _ db)
            λ previous _. add_after-Answers employee previous db (
              check_new_job_date-IsWithin data'.action data'.effdt employee.hire_date latest_effdt
                checked)

  -- After `add_job` returns a row, the question which row is in effect for an employee of a tenant on
  -- a date is answered by the new row, if it is of that employee and its date is not after that
  -- date, and otherwise as it was before: from its own date on the new row is in effect, and neither
  -- the employee's history before it nor another employee's changes.
  pub add_job-in_effect :
      (employee_id : ℕ) (db : Db)
      → Yields
          (λ job db'.
            job_as_of db'.employee_jobs t e as_of
            ≡ (if in_effect t e as_of job then some job else job_as_of db.employee_jobs t e as_of))
          (add_job env actor employee_id data' db)
  unfolding add_job
  add_job-in_effect employee_id db =
      Yields-read (Answers db) _
        (or_raise not_found (find (is_employee actor.tenant_id employee_id) db.employees)) _ db
        (or_raise-Yields _ _ db) λ employee _. add_for-Answers employee db
