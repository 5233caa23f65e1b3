-- ===== src/Models/Leave.antt =====
-- backend/app/models/leave.py: leave types, policies, holidays, balances, requests, approvals.
-- A field that the database fills (created_at, updated_at) is left out; a time is a number.
use hrus.Base.{ℕ, Bool, true, false, Option, String, List}
use hrus.Base.Int.{ℤ, ◌+ℤ◌, ◌-ℤ◌}
use hrus.Calendar.{Date}

abbrev pub max_request_span_days : ℕ
max_request_span_days = 184

pub data LeaveRequestStatus : Type 0 where
  pending approved rejected cancelled : LeaveRequestStatus

pub data ApprovalStatus : Type 0 where
  pending approved rejected skipped : ApprovalStatus

pub record LeaveType : Type 0 where
  pub id : ℕ
  pub tenant_id : ℕ
  pub code : String
  pub name : String
  pub requires_balance : Bool
  pub is_paid : Bool
  pub min_notice_days : ℕ
  pub allow_backdated : Bool
  pub max_days_per_request : Option ℕ
  pub approval_levels : ℕ
  pub is_active : Bool

pub record LeavePolicy : Type 0 where
  pub id : ℕ
  pub tenant_id : ℕ
  pub leave_type_id : ℕ
  pub grade : Option String
  pub min_service_months : ℕ
  pub annual_days : ℕ
  pub max_carry_over_days : ℕ
  pub carry_over_expiry_months : ℕ

pub data HolidayKind : Type 0 where
  national collective_leave company : HolidayKind

pub record HolidayCalendar : Type 0 where
  pub id : ℕ
  pub tenant_id : ℕ
  pub holiday_date : Date
  pub name : String
  pub kind : HolidayKind

pub record LeaveBalance : Type 0 where
  pub id : ℕ
  pub tenant_id : ℕ
  pub employee_id : ℕ
  pub leave_type_id : ℕ
  pub year : ℕ
  pub entitled : ℤ
  pub carried_over : ℤ
  pub adjusted : ℤ
  pub used : ℤ
  pub pending : ℤ
  pub expired : ℤ
  pub carry_over_applied_at : Option ℕ
  pub carry_over_expires_on : Option Date
  pub carry_over_expired_at : Option ℕ

-- The property `LeaveBalance.available`.
unfoldable pub available : LeaveBalance → ℤ
available b = b.entitled +ℤ b.carried_over +ℤ b.adjusted -ℤ b.used -ℤ b.pending -ℤ b.expired

-- A soft warning: how many colleagues of the team are on leave too.
pub record TeamOverlapWarning : Type 0 where
  pub colleagues_on_leave : ℕ

pub record LeaveRequest : Type 0 where
  pub id : ℕ
  pub tenant_id : ℕ
  pub employee_id : ℕ
  pub leave_type_id : ℕ
  pub start_date : Date
  pub end_date : Date
  pub days : ℕ
  pub reason : Option String
  pub status : LeaveRequestStatus
  pub approval_levels : ℕ
  pub current_level : ℕ
  pub requested_by_user_id : ℕ
  pub idempotency_key : Option String
  pub validation : List TeamOverlapWarning
  pub decided_at : Option ℕ
  pub cancelled_at : Option ℕ

pub record LeaveApproval : Type 0 where
  pub id : ℕ
  pub tenant_id : ℕ
  pub leave_request_id : ℕ
  pub level : ℕ
  pub approver_employee_id : Option ℕ
  pub status : ApprovalStatus
  pub note : Option String
  pub decided_by_user_id : Option ℕ
  pub decided_at : Option ℕ

abbrev pub is_pending : LeaveRequestStatus → Bool
is_pending LeaveRequestStatus.pending = true
is_pending _ = false

abbrev pub is_approved : LeaveRequestStatus → Bool
is_approved LeaveRequestStatus.approved = true
is_approved _ = false

-- `status IN ('pending', 'approved')`
abbrev pub is_active : LeaveRequestStatus → Bool
is_active LeaveRequestStatus.pending = true
is_active LeaveRequestStatus.approved = true
is_active _ = false

abbrev pub awaits : ApprovalStatus → Bool
awaits ApprovalStatus.pending = true
awaits _ = false
