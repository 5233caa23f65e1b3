-- ===== src/Leave/Accrual.antt =====
-- backend/app/services/leave_accrual.py: entitlements and carry-over of a year, and the expiry of
-- what was carried over. A chunk is the employees whose ids lie between two ids.
pub mod Settled
pub mod Loops
pub mod Again
pub mod Ledger
use hrus.Base.{
  ℕ, suc, ◌-◌, Bool, true, false, not, ◌&&◌, Option, none, some, List, [], ◌∷◌, ◌++◌, String, ◌==◌,
  leb, if◌then◌else◌, is_some, filter,
}
use hrus.Base.Int.{ℤ, pos, ◌+ℤ◌, ◌-ℤ◌, ltb_ℤ, max_ℤ, min_ℤ}
use hrus.Calendar.{Date, date, on_or_before}
use hrus.Models.Auth.{AuditLog}
use hrus.Models.CoreHr.{Employee, EmployeeJob, is_active_status}
use hrus.Models.Jobs.{Counts}
use hrus.Models.Leave.{LeaveType, LeavePolicy, LeaveBalance, available}
use hrus.Rules.Leave.{pick_policy, service_months, carry_over_expiry}
use hrus.Db.{Db, Env}
use hrus.CoreHr.JobHistory.{job_as_of}
use hrus.Jobs.Execute.{add_count}
use hrus.Leave.Balances.{
  Key, find_balance, change_balance, add_balance, new_balance, grade_of, annual_days, later_date,
}

-- `_snapshot`, and whether two of them are equal.
abbrev pub same_ℤ : ℤ → ℤ → Bool
same_ℤ a b = not (ltb_ℤ a b) && not (ltb_ℤ b a)

abbrev pub same_day : Option Date → Option Date → Bool
same_day none none = true
same_day (some a) (some b) = a.year == b.year && a.month == b.month && a.day == b.day
same_day _ _ = false

unfoldable pub same_snapshot : LeaveBalance → LeaveBalance → Bool
same_snapshot a b =
    same_ℤ a.entitled b.entitled
    && same_ℤ a.carried_over b.carried_over
    && same_ℤ a.expired b.expired
    && same_day a.carry_over_expires_on b.carry_over_expires_on

-- An entitlement rises to the target, and never falls.
abbrev pub raise_entitled : ℤ → LeaveBalance → LeaveBalance
raise_entitled target b = if ltb_ℤ b.entitled target then record b { entitled = target } else b

-- What is left of last year, within the limit of the policy.
abbrev pub carry_days : Option LeavePolicy → Option LeaveBalance → ℤ
carry_days (some base) (some last_year) =
    min_ℤ (max_ℤ (available last_year) (pos 0)) (pos base.max_carry_over_days)
carry_days _ _ = pos 0

abbrev expiry_months : Option LeavePolicy → ℕ
expiry_months none = 0
expiry_months (some base) = base.carry_over_expiry_months

abbrev pub apply_carry : ℕ → ℕ → Option LeavePolicy → ℤ → LeaveBalance → LeaveBalance
apply_carry now year base carry b =
    if ltb_ℤ (pos 0) carry
    then record b {
      carried_over = b.carried_over +ℤ carry;
      carry_over_expires_on = carry_over_expiry year (expiry_months base);
      carry_over_applied_at = some now;
    }
    else record b { carry_over_applied_at = some now }

-- Once in a year.
abbrev pub carry_over :
    ℕ → ℕ → Option LeavePolicy → Option LeaveBalance → LeaveBalance → LeaveBalance
carry_over now year base last_year b =
    if is_some b.carry_over_applied_at
    then b
    else apply_carry now year base (carry_days base last_year) b

-- The changes of one balance, in the order of the source.
unfoldable pub accrue_balance :
    ℕ → ℕ → Option LeavePolicy → ℤ → Option LeaveBalance → LeaveBalance → LeaveBalance
accrue_balance now year base target last_year b =
    carry_over now year base last_year (raise_entitled target b)

abbrev tally : Bool → String → Counts → Counts
tally true kind counts = add_count kind 1 counts
tally false kind counts = counts

-- `result.add` for the two changes.
abbrev pub tally_changes :
    Option LeavePolicy → ℤ → Option LeaveBalance → LeaveBalance → Counts → Counts
tally_changes base target last_year b counts =
    tally (not (is_some b.carry_over_applied_at) && ltb_ℤ (pos 0) (carry_days base last_year))
      "carried_over" (tally (ltb_ℤ b.entitled target) "entitlement_increased" counts)

-- The state of the two loops: the tables, the balances in `changed`, and the result's counts.
pub record Pass : Type 0 where
  pub db : Db
  pub changed : List ℕ
  pub counts : Counts

-- One round of the loops. A key is visited once, so the table shows the same row as the dictionary
-- that the source reads before the loops.
module _ (now year : ℕ) (k : Key) (base : Option LeavePolicy) (target : ℤ)
    (last_year : Option LeaveBalance) where
  abbrev pub visit_new : Pass → Pass
  visit_new s =
      let b = new_balance s.db.next_id k (annual_days base) in
      record {
        db = record (add_balance (accrue_balance now year base target last_year b) s.db) {
          next_id = suc s.db.next_id;
        };
        changed = s.changed ++ s.db.next_id ∷ [];
        counts = tally_changes base target last_year b (add_count "balance_created" 1 s.counts);
      }

  abbrev pub visit_old : LeaveBalance → Pass → Pass
  visit_old b s = record {
    db = change_balance k (accrue_balance now year base target last_year) s.db;
    changed =
        if same_snapshot b (accrue_balance now year base target last_year b)
        then s.changed
        else s.changed ++ b.id ∷ [];
    counts = tally_changes base target last_year b s.counts;
  }

  abbrev pub visit_found : Option LeaveBalance → Pass → Pass
  visit_found none s = visit_new s
  visit_found (some b) s = visit_old b s

  unfoldable pub visit : Pass → Pass
  visit s = visit_found (find_balance k s.db) s

abbrev pub yearly_key : ℕ → ℕ → Employee → LeaveType → Key
yearly_key tenant_id year e t = record {
  tenant_id = tenant_id;
  employee_id = e.id;
  leave_type_id = t.id;
  year = year;
}

module _ (upper : String → String) (tenant_id : ℕ) (jobs : List EmployeeJob)
    (policies : List LeavePolicy) where
  -- The policy for an employee and a leave type on a date.
  unfoldable pub policy_on : Date → Employee → LeaveType → Option LeavePolicy
  policy_on day e t =
      pick_policy upper policies t.id (grade_of (job_as_of jobs tenant_id e.id day))
        (service_months e.hire_date day)

  abbrev pub target_days : Date → Employee → LeaveType → ℤ
  target_days as_of e t = annual_days (policy_on as_of e t)

module _ (upper : String → String) (now tenant_id : ℕ) (as_of : Date) (jobs : List EmployeeJob)
    (policies : List LeavePolicy) (before : Db) where
  abbrev pub visit_pair : Employee → LeaveType → Pass → Pass
  visit_pair e t =
      visit now as_of.year (yearly_key tenant_id as_of.year e t)
        (policy_on upper tenant_id jobs policies (later_date (date as_of.year 1 1) e.hire_date) e t)
        (target_days upper tenant_id jobs policies as_of e t)
        (find_balance (yearly_key tenant_id (as_of.year - 1) e t) before)

  unfoldable pub visit_types : Employee → List LeaveType → Pass → Pass
  visit_types e [] s = s
  visit_types e (t ∷ ts) s = visit_types e ts (visit_pair e t s)

  unfoldable pub visit_employees : List Employee → List LeaveType → Pass → Pass
  visit_employees [] ts s = s
  visit_employees (e ∷ es) ts s = visit_employees es ts (visit_types e ts s)

abbrev is_working_on : Option EmployeeJob → Bool
is_working_on none = false
is_working_on (some j) = is_active_status j.employment_status

-- `_chunk_employees`, of the employees who are active on the date.
unfoldable pub chunk_employees : List Employee → List EmployeeJob → ℕ → ℕ → ℕ → Date → List Employee
chunk_employees employees jobs tenant_id first_id last_id as_of =
    filter
      (λ e.
        e.tenant_id == tenant_id
        && leb first_id e.id
        && leb e.id last_id
        && is_working_on (job_as_of jobs tenant_id e.id as_of))
      employees

unfoldable pub is_accruing : ℕ → LeaveType → Bool
is_accruing tenant_id t = t.tenant_id == tenant_id && t.is_active && t.requires_balance

-- `record_audit` for each balance in `changed`.
unfoldable pub audit_changed : ℕ → Option ℕ → String → List ℕ → List AuditLog → List AuditLog
audit_changed tenant_id actor_user_id action [] log = log
audit_changed tenant_id actor_user_id action (id ∷ ids) log =
    audit_changed tenant_id actor_user_id action ids (
      log
      ++ record {
        tenant_id = tenant_id;
        actor_user_id = actor_user_id;
        action = action;
        entity_id = id;
      }
        ∷ [])

unfoldable pub audited : ℕ → Option ℕ → String → Pass → Db × Counts
audited tenant_id actor_user_id action s = (
  record s.db { audit_log = audit_changed tenant_id actor_user_id action s.changed s.db.audit_log },
  s.counts,
)

unfoldable pub of_tenant : ℕ → List LeavePolicy → List LeavePolicy
of_tenant tenant_id = filter (λ p. p.tenant_id == tenant_id)

-- `by_code` is `ORDER BY code`, under the database's collation.
module _ (by_code : List LeaveType → List LeaveType) (env : Env) (tenant_id first_id last_id : ℕ)
    (as_of : Date) (actor_user_id : Option ℕ) where
  abbrev pub accrue_types : List LeaveType → Db → Db × Counts
  accrue_types [] db = (db, [])
  accrue_types (t ∷ ts) db = audited tenant_id actor_user_id "leave_balance.accrual" (
      visit_employees env.upper env.now tenant_id as_of db.employee_jobs
        (of_tenant tenant_id db.leave_policies) db
        (chunk_employees db.employees db.employee_jobs tenant_id first_id last_id as_of) (t ∷ ts)
        (record { db = db; changed = []; counts = [] }))

  unfoldable pub accrue : Db → Db × Counts
  accrue db = accrue_types (by_code (filter (is_accruing tenant_id) db.leave_types)) db
