-- ===== src/Db.antt =====
-- The tables of one database, the environment of a request, ids and the audit log
-- (backend/app/services/audit.py, backend/app/services/tenant.py).
use hrus.Base.{ℕ, suc, Option, List, [], ◌∷◌, ◌++◌, String}
use hrus.Calendar.{Date}
use hrus.Errors.{ok}
use hrus.Tx.{Tx}
use hrus.Models.Auth.{AuditLog}
use hrus.Models.CoreHr.{Employee, EmployeeJob, OrgUnit}
use hrus.Models.Leave.{
  LeaveType, LeavePolicy, HolidayCalendar, LeaveBalance, LeaveRequest, LeaveApproval,
}

pub record Db : Type 0 where
  pub org_units : List OrgUnit
  pub employees : List Employee
  pub employee_jobs : List EmployeeJob
  pub leave_types : List LeaveType
  pub leave_policies : List LeavePolicy
  pub holidays : List HolidayCalendar
  pub leave_balances : List LeaveBalance
  pub leave_requests : List LeaveRequest
  pub leave_approvals : List LeaveApproval
  pub audit_log : List AuditLog
  pub next_id : ℕ

-- The clock, the tenant's date of today (`tenant_today`), and the string methods in use.
pub record Env : Type 0 where
  pub now : ℕ
  pub today : ℕ → Date
  pub upper : String → String
  pub strip : String → String

-- A fresh id, in place of `gen_random_uuid()`.
unfoldable pub new_id : Tx Db ℕ
new_id db = ok (db.next_id, record db { next_id = suc db.next_id })

unfoldable pub record_audit : ℕ → Option ℕ → String → ℕ → Tx Db (Unit {0})
record_audit tenant_id actor_user_id action entity_id db = ok (
  tt,
  record db {
    audit_log =
        db.audit_log
        ++ record {
          tenant_id = tenant_id;
          actor_user_id = actor_user_id;
          action = action;
          entity_id = entity_id;
        }
          ∷ [];
  },
)
