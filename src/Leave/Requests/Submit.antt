-- ===== src/Leave/Requests/Submit.antt =====
-- `submit`: a request with its approvals, and the days that it holds of the balance.
use hrus.Base.{
  ℕ, zero, suc, Bool, true, false, ◌&&◌, ◌||◌, Option, none, some, List, [], ◌∷◌, ◌++◌, String,
  str_eq, ◌==◌, if◌then◌else◌, find, any,
}
use hrus.Base.Int.{pos, ◌+ℤ◌}
use hrus.Calendar.{Date, on_or_before}
use hrus.Errors.{Code, rule_violation, conflict, unexpected}
use hrus.Tx.{Tx, pure, raise, gets, modify, or_raise, raise_if, ◌>>=◌, ◌>>◌}
use hrus.Models.Auth.{AccessClaims}
use hrus.Models.CoreHr.{EmployeeJob}
use hrus.Models.Leave.{
  LeaveBalance, LeaveRequest, LeaveRequestStatus, LeaveApproval, ApprovalStatus, is_active,
}
use hrus.Rules.Leave.{Violation}
use hrus.Db.{Db, Env, new_id, record_audit}
use hrus.CoreHr.JobHistory.{job_as_of}
use hrus.Leave.Balances.{balance_key, change_balance}
use hrus.Leave.Requests.Lookup.{Detail, detail}
use hrus.Leave.Requests.Evaluate.{LeaveRequestInput, Evaluation, evaluate}

abbrev supervisor : Option EmployeeJob → Option ℕ
supervisor none = none
supervisor (some j) = j.supervisor_employee_id

abbrev job_of : List EmployeeJob → ℕ → Option ℕ → Date → Option EmployeeJob
job_of jobs tenant_id none as_of = none
job_of jobs tenant_id (some employee_id) as_of = job_as_of jobs tenant_id employee_id as_of

-- `_approver_chain`: the supervisor, then the supervisor's supervisor; None where there is none.
unfoldable pub approver_chain : List EmployeeJob → ℕ → Option ℕ → ℕ → Date → List (Option ℕ)
approver_chain jobs tenant_id current zero as_of = []
approver_chain jobs tenant_id current (suc levels) as_of =
    let next = supervisor (job_of jobs tenant_id current as_of) in
    next ∷ approver_chain jobs tenant_id next levels as_of

abbrev same_text : Option String → String → Bool
same_text none s = false
same_text (some t) s = str_eq t s

abbrev same_key_text : Option String → Option String → Bool
same_key_text none t = false
same_key_text (some s) t = same_text t s

unfoldable pub has_idempotency_key : ℕ → ℕ → String → LeaveRequest → Bool
has_idempotency_key tenant_id employee_id key r =
    r.tenant_id == tenant_id && r.employee_id == employee_id && same_text r.idempotency_key key

-- A missing or an empty key finds nothing.
unfoldable pub find_existing : ℕ → ℕ → Option String → Db → Option LeaveRequest
find_existing tenant_id employee_id none db = none
find_existing tenant_id employee_id (some key) db =
    if str_eq key ""
    then none
    else find (has_idempotency_key tenant_id employee_id key) db.leave_requests

-- `x.strip() if x else None`
abbrev pub stripped : Env → Option String → Option String
stripped env none = none
stripped env (some s) = if str_eq s "" then none else some (env.strip s)

unfoldable pub new_request :
    Env → AccessClaims → ℕ → ℕ → Evaluation → LeaveRequestInput → Option String → LeaveRequest
new_request env actor employee_id id ev data' idempotency_key = record {
  id = id;
  tenant_id = actor.tenant_id;
  employee_id = employee_id;
  leave_type_id = ev.leave_type.id;
  start_date = data'.start_date;
  end_date = data'.end_date;
  days = ev.result.days;
  reason = stripped env data'.reason;
  status = LeaveRequestStatus.pending;
  approval_levels = ev.leave_type.approval_levels;
  current_level = 1;
  requested_by_user_id = actor.user_id;
  idempotency_key = idempotency_key;
  validation = ev.result.warnings;
  decided_at = none;
  cancelled_at = none;
}

unfoldable pub add_request : LeaveRequest → Db → Db
add_request r db = record db { leave_requests = db.leave_requests ++ r ∷ [] }

abbrev pub hold : ℕ → LeaveBalance → LeaveBalance
hold days b = record b { pending = b.pending +ℤ pos days }

-- `evaluation.balance.pending += result.days`
unfoldable pub hold_days : Option LeaveBalance → ℕ → Db → Db
hold_days none days db = db
hold_days (some b) days db = change_balance (balance_key b) (hold days) db

unfoldable pub add_approval : LeaveApproval → Db → Db
add_approval a db = record db { leave_approvals = db.leave_approvals ++ a ∷ [] }

-- One approval for each level, counted from `level` on.
unfoldable pub add_approvals : LeaveRequest → ℕ → List (Option ℕ) → Tx Db (Unit {0})
add_approvals r level [] = pure tt
add_approvals r level (approver ∷ rest) = do
  id ← new_id
  modify (
      add_approval (record {
        id = id;
        tenant_id = r.tenant_id;
        leave_request_id = r.id;
        level = level;
        approver_employee_id = approver;
        status = ApprovalStatus.pending;
        note = none;
        decided_by_user_id = none;
        decided_at = none;
      }))
  add_approvals r (suc level) rest

-- `if not result.valid`: the first violation is raised (`errors[0]`).
unfoldable pub ensure_valid : Bool → List Violation → Tx Db (Unit {0})
ensure_valid true errors = pure tt
ensure_valid false [] = raise unexpected
ensure_valid false (v ∷ vs) = raise (rule_violation v)

-- What the database refuses at the flush: an active request of the employee whose dates overlap
-- (the exclusion constraint ex_leave_request_no_overlap, on the dates alone), or one with the same
-- idempotency key (the unique index uq_leave_request_idempotency).
unfoldable pub clashes : LeaveRequest → LeaveRequest → Bool
clashes r s =
    s.tenant_id == r.tenant_id
    && s.employee_id == r.employee_id
    && ((is_active s.status
          && on_or_before s.start_date r.end_date
          && on_or_before r.start_date s.end_date)
        || same_key_text r.idempotency_key s.idempotency_key)

unfoldable pub submit_new :
    Env → AccessClaims → ℕ → LeaveRequestInput → Option String → Tx Db Detail
submit_new env actor employee_id data' idempotency_key = do
  ev ← evaluate env actor data'
  ensure_valid ev.result.valid ev.result.errors
  approvers ← gets (λ db.
      approver_chain db.employee_jobs actor.tenant_id (some employee_id)
        ev.leave_type.approval_levels (env.today actor.tenant_id))
  id ← new_id
  let r = new_request env actor employee_id id ev data' idempotency_key
  clash ← gets (λ db. any (clashes r) db.leave_requests)
  raise_if clash (conflict Code.overlapping_request)
  modify (λ db. hold_days ev.balance ev.result.days (add_request r db))
  add_approvals r 1 approvers
  record_audit actor.tenant_id (some actor.user_id) "leave_request.submit" id
  detail actor.tenant_id id

abbrev pub or_submit :
    Env → AccessClaims → ℕ → LeaveRequestInput → Option String → Option LeaveRequest → Tx Db Detail
or_submit env actor employee_id data' idempotency_key (some existing) =
    detail actor.tenant_id existing.id
or_submit env actor employee_id data' idempotency_key none =
    submit_new env actor employee_id data' idempotency_key

unfoldable pub submit : Env → AccessClaims → LeaveRequestInput → Option String → Tx Db Detail
submit env actor data' idempotency_key = do
  employee_id ← or_raise (rule_violation Code.no_employee_profile) actor.employee_id
  existing ← gets (find_existing actor.tenant_id employee_id idempotency_key)
  or_submit env actor employee_id data' idempotency_key existing
