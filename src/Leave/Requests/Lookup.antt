-- ===== src/Leave/Requests/Lookup.antt =====
-- Reading requests: the row of an id, who may see it, and the detail that the API returns.
use hrus.Base.{
  ℕ, Bool, false, not, ◌&&◌, ◌||◌, Option, none, some, List, [], ◌∷◌, String, ◌==◌, leb,
  if◌then◌else◌, holds_id, find, any, filter,
}
use hrus.Errors.{not_found, unexpected}
use hrus.Tx.{Tx, pure, gets, or_raise, raise_if, ◌>>=◌, ◌>>◌}
use hrus.Models.Auth.{AccessClaims, is_hr}
use hrus.Models.Leave.{LeaveRequest, LeaveApproval, TeamOverlapWarning}
use hrus.Leave.Config.{is_leave_type}
use hrus.Leave.Balances.{is_employee}
use hrus.Db.{Db}

unfoldable pub is_request : ℕ → ℕ → LeaveRequest → Bool
is_request tenant_id request_id r = r.tenant_id == tenant_id && r.id == request_id

-- The approvals of a request.
unfoldable pub is_approval_of : LeaveRequest → LeaveApproval → Bool
is_approval_of r a = a.tenant_id == r.tenant_id && a.leave_request_id == r.id

-- `_load`; the row lock orders concurrent transactions and changes no value.
unfoldable pub load : ℕ → ℕ → Tx Db LeaveRequest
load tenant_id request_id = do
  found ← gets (λ db. find (is_request tenant_id request_id) db.leave_requests)
  or_raise not_found found

abbrev is_approver_of : List LeaveApproval → LeaveRequest → Option ℕ → Bool
is_approver_of approvals r none = false
is_approver_of approvals r (some viewer) =
    any (λ a. is_approval_of r a && holds_id a.approver_employee_id viewer) approvals

unfoldable pub can_view : AccessClaims → LeaveRequest → Db → Bool
can_view viewer r db =
    is_hr viewer
    || holds_id viewer.employee_id r.employee_id
    || is_approver_of db.leave_approvals r viewer.employee_id

pub record Detail : Type 0 where
  pub request : LeaveRequest
  pub employee_name : String
  pub leave_type_code : String
  pub approvals : List LeaveApproval
  pub warnings : List TeamOverlapWarning

-- `ORDER BY level`
unfoldable pub insert_level : LeaveApproval → List LeaveApproval → List LeaveApproval
insert_level a [] = a ∷ []
insert_level a (b ∷ bs) = if leb a.level b.level then a ∷ b ∷ bs else b ∷ insert_level a bs

unfoldable pub sort_level : List LeaveApproval → List LeaveApproval
sort_level [] = []
sort_level (a ∷ as') = insert_level a (sort_level as')

-- The joins of `_request_select` want the employee and the leave type; `one()` raises where a row
-- is missing.
unfoldable pub detail : ℕ → ℕ → Tx Db Detail
detail tenant_id request_id = do
  found ← gets (λ db. find (is_request tenant_id request_id) db.leave_requests)
  r ← or_raise unexpected found
  owner ← gets (λ db. find (is_employee tenant_id r.employee_id) db.employees)
  employee ← or_raise unexpected owner
  kind ← gets (λ db. find (is_leave_type tenant_id r.leave_type_id) db.leave_types)
  leave_type ← or_raise unexpected kind
  approvals ← gets (λ db. sort_level (filter (is_approval_of r) db.leave_approvals))
  pure (record {
    request = r;
    employee_name = employee.full_name;
    leave_type_code = leave_type.code;
    approvals = approvals;
    warnings = r.validation;
  })

unfoldable pub get_request : AccessClaims → ℕ → Tx Db Detail
get_request viewer request_id = do
  r ← load viewer.tenant_id request_id
  seen ← gets (can_view viewer r)
  raise_if (not seen) not_found
  detail viewer.tenant_id request_id
