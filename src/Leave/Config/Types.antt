-- ===== src/Leave/Config/Types.antt =====
-- backend/app/services/leave_config.py: leave types are created and changed.
use hrus.Base.{
  ℕ, suc, Bool, true, false, not, ◌&&◌, Option, none, some, [], ◌∷◌, ◌++◌, String, str_eq, ◌==◌,
  any, update_first,
}
use hrus.Calendar.{Date}
use hrus.Errors.{Code, conflict}
use hrus.Tx.{Tx, pure, gets, modify, raise_if, ◌>>=◌, ◌>>◌}
use hrus.Models.Auth.{AccessClaims}
use hrus.Models.Leave.{LeaveType, HolidayKind}
use hrus.Db.{Db, Env, record_audit}
use hrus.Leave.Config.{is_leave_type, get_leave_type}

pub record LeaveTypeCreate : Type 0 where
  pub code : String
  pub name : String
  pub requires_balance : Bool
  pub is_paid : Bool
  pub min_notice_days : ℕ
  pub allow_backdated : Bool
  pub max_days_per_request : Option ℕ
  pub approval_levels : ℕ

-- A field that is not sent, or null, is none; the greatest number of days may be sent as null.
pub record LeaveTypeUpdate : Type 0 where
  pub name : Option String
  pub is_paid : Option Bool
  pub min_notice_days : Option ℕ
  pub allow_backdated : Option Bool
  pub max_days_per_request : Option (Option ℕ)
  pub approval_levels : Option ℕ
  pub is_active : Option Bool

pub record LeavePolicyCreate : Type 0 where
  pub leave_type_id : ℕ
  pub grade : Option String
  pub min_service_months : ℕ
  pub annual_days : ℕ
  pub max_carry_over_days : ℕ
  pub carry_over_expiry_months : ℕ

pub record LeavePolicyUpdate : Type 0 where
  pub annual_days : Option ℕ
  pub max_carry_over_days : Option ℕ
  pub carry_over_expiry_months : Option ℕ

pub record HolidayCreate : Type 0 where
  pub holiday_date : Date
  pub name : String
  pub kind : HolidayKind

unfoldable pub has_code : ℕ → String → LeaveType → Bool
has_code tenant_id code t = t.tenant_id == tenant_id && str_eq t.code code

abbrev pub new_leave_type : Env → ℕ → LeaveTypeCreate → ℕ → LeaveType
new_leave_type env tenant_id form id = record {
  id = id;
  tenant_id = tenant_id;
  code = env.upper (env.strip form.code);
  name = form.name;
  requires_balance = form.requires_balance;
  is_paid = form.is_paid;
  min_notice_days = form.min_notice_days;
  allow_backdated = form.allow_backdated;
  max_days_per_request = form.max_days_per_request;
  approval_levels = form.approval_levels;
  is_active = true;
}

abbrev pub add_leave_type : LeaveType → Db → Db
add_leave_type t db = record db { leave_types = db.leave_types ++ t ∷ []; next_id = suc db.next_id }

unfoldable pub create_leave_type : Env → AccessClaims → LeaveTypeCreate → Tx Db LeaveType
create_leave_type env actor form = do
  taken ←
      gets (λ db. any (has_code actor.tenant_id (env.upper (env.strip form.code))) db.leave_types)
  raise_if taken (conflict Code.leave_type_code_taken)
  id ← gets (λ db. db.next_id)
  let leave_type = new_leave_type env actor.tenant_id form id
  modify (add_leave_type leave_type)
  record_audit actor.tenant_id (some actor.user_id) "leave_type.create" id
  pure leave_type

abbrev pub sent_or : {A : Type 0} → Option A → A → A
sent_or none old = old
sent_or (some new) old = new

abbrev pub changed_type : LeaveTypeUpdate → LeaveType → LeaveType
changed_type form t = record t {
  name = sent_or form.name t.name;
  is_paid = sent_or form.is_paid t.is_paid;
  min_notice_days = sent_or form.min_notice_days t.min_notice_days;
  allow_backdated = sent_or form.allow_backdated t.allow_backdated;
  max_days_per_request = sent_or form.max_days_per_request t.max_days_per_request;
  approval_levels = sent_or form.approval_levels t.approval_levels;
  is_active = sent_or form.is_active t.is_active;
}

abbrev same_flag : Bool → Bool → Bool
same_flag true b = b
same_flag false b = not b

abbrev same_number : Option ℕ → Option ℕ → Bool
same_number none none = true
same_number (some a) (some b) = a == b
same_number _ _ = false

abbrev pub same_type : LeaveType → LeaveType → Bool
same_type s t =
    str_eq s.name t.name
    && same_flag s.is_paid t.is_paid
    && s.min_notice_days == t.min_notice_days
    && same_flag s.allow_backdated t.allow_backdated
    && same_number s.max_days_per_request t.max_days_per_request
    && s.approval_levels == t.approval_levels
    && same_flag s.is_active t.is_active

abbrev pub audit_unless : Bool → AccessClaims → String → ℕ → Tx Db (Unit {0})
audit_unless true actor action id = pure tt
audit_unless false actor action id = record_audit actor.tenant_id (some actor.user_id) action id

abbrev pub change_type : LeaveType → (LeaveType → LeaveType) → Db → Db
change_type t f db = record db {
  leave_types = update_first (is_leave_type t.tenant_id t.id) f db.leave_types;
}

unfoldable pub update_leave_type : AccessClaims → ℕ → LeaveTypeUpdate → Tx Db LeaveType
update_leave_type actor type_id form = do
  before ← get_leave_type actor.tenant_id type_id
  let after = changed_type form before
  modify (change_type before (changed_type form))
  audit_unless (same_type before after) actor "leave_type.update" before.id
  pure after
