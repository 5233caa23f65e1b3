-- ===== src/Leave/Accrual/Again.antt =====
-- Running an accrual again for the same date changes nothing.
use hrus.Base.{ℕ, ◌≡◌, refl, sym, ap, ◌∙◌, Option, List, [], ◌∷◌, filter}
use hrus.Calendar.{Date}
use mathlib.Core.Path.{subst₃}
use hrus.Models.CoreHr.{Employee, EmployeeJob}
use hrus.Models.Jobs.{Counts}
use hrus.Models.Leave.{LeaveType, LeavePolicy}
use hrus.Db.{Db, Env}
use hrus.Leave.Balances.{find_balance}
use hrus.Leave.Accrual.{
  Pass, visit_employees, chunk_employees, is_accruing, audited, audit_changed, of_tenant,
  accrue_types, accrue,
}
use hrus.Leave.Accrual.Loops.{
  SameInputs, AllSettled, employees-settle, employees-fixed, employees-SameInputs,
}

module _ (by_code : List LeaveType → List LeaveType) (env : Env) (later : ℕ)
    (tenant_id first_id last_id : ℕ) (as_of : Date) (actor actor' : Option ℕ) where
  abbrev first_run : List LeaveType → Db → Db × Counts
  first_run = accrue_types by_code env tenant_id first_id last_id as_of actor

  abbrev second_run : List LeaveType → Db → Db × Counts
  second_run =
      accrue_types by_code (record env { now = later }) tenant_id first_id last_id as_of actor'

  -- The pass over an unchanged database ends as it began.
  module _ (ts : List LeaveType) (t : LeaveType) (db : Db) where
    abbrev rows : List Employee
    rows = chunk_employees db.employees db.employee_jobs tenant_id first_id last_id as_of

    abbrev pass : Pass
    pass =
        visit_employees env.upper env.now tenant_id as_of db.employee_jobs
          (of_tenant tenant_id db.leave_policies) db rows (t ∷ ts)
          (record { db = db; changed = []; counts = [] })

    pass-SameInputs : SameInputs db pass.db
    pass-SameInputs =
        employees-SameInputs env.upper env.now tenant_id as_of db.employee_jobs
          (of_tenant tenant_id db.leave_policies) db rows (t ∷ ts)
          (record { db = db; changed = []; counts = [] })

    -- A pass over tables in which all is settled.
    rerun :
        (db' : Db) (jobs : List EmployeeJob) (policies : List LeavePolicy) (es : List Employee)
        → jobs ≡ db'.employee_jobs
        → policies ≡ of_tenant tenant_id db'.leave_policies
        → es ≡ chunk_employees db'.employees db'.employee_jobs tenant_id first_id last_id as_of
        → AllSettled env.upper tenant_id as_of jobs policies db' es (t ∷ ts)
        → second_run (t ∷ ts) db' ≡ (db', [])
    unfolding audited audit_changed
    rerun db' jobs policies es ej ep ee h =
        let settled =
          subst₃ (λ j p e. AllSettled env.upper tenant_id as_of j p db' e (t ∷ ts)) ej ep ee h in
        rw
          (employees-fixed env.upper tenant_id as_of db'.employee_jobs
            (of_tenant tenant_id db'.leave_policies) later db'
            (chunk_employees db'.employees db'.employee_jobs tenant_id first_id last_id as_of)
            (t ∷ ts) (record { db = db'; changed = []; counts = [] }) settled)
          refl

    again : second_run (t ∷ ts) (first_run (t ∷ ts) db).0 ≡ ((first_run (t ∷ ts) db).0, [])
    unfolding audited find_balance
    again =
        rerun (first_run (t ∷ ts) db).0 db.employee_jobs (of_tenant tenant_id db.leave_policies)
          rows (sym pass-SameInputs.jobs) (cc pass-SameInputs.policies)
          (cc (pass-SameInputs.employees, pass-SameInputs.jobs))
          (employees-settle env.upper tenant_id as_of db.employee_jobs
            (of_tenant tenant_id db.leave_policies) env.now db rows (t ∷ ts)
            (record { db = db; changed = []; counts = [] }))

  -- Running the accrual of a chunk again for the same date, at any later time and whoever starts it,
  -- changes nothing at all and reports no change, whatever the tables hold.
  pub accrue-again :
      (db : Db)
      → accrue by_code
          (record env { now = later })
          tenant_id
          first_id
          last_id
          as_of
          actor'
          (accrue by_code env tenant_id first_id last_id as_of actor db).0
        ≡ ((accrue by_code env tenant_id first_id last_id as_of actor db).0, [])
  unfolding accrue audited
  accrue-again db = by_types (by_code (filter (is_accruing tenant_id) db.leave_types)) refl
    where
      by_types :
          (ts : List LeaveType)
          → by_code (filter (is_accruing tenant_id) db.leave_types) ≡ ts
          → second_run
              (by_code (filter (is_accruing tenant_id) (first_run ts db).0.leave_types))
              (first_run ts db).0
            ≡ ((first_run ts db).0, [])
      by_types [] h = rw h refl
      by_types (t ∷ ts) h =
          let same =
            ap (λ (l : List LeaveType). by_code (filter (is_accruing tenant_id) l))
              (pass-SameInputs ts t db).types
            ∙ h in
          rw same (again ts t db)
