-- ===== src/Leave/Config/Policies.antt =====
-- backend/app/services/leave_config.py: policies are created, changed and deleted.
use hrus.Base.{
  ℕ, suc, Bool, not, ◌&&◌, Option, none, some, [], ◌∷◌, ◌++◌, String, str_eq, ◌==◌, if◌then◌else◌,
  find, any, filter, update_first,
}
use hrus.Errors.{Code, not_found, conflict}
use hrus.Tx.{Tx, pure, gets, modify, or_raise, raise_if, ◌>>=◌, ◌>>◌}
use hrus.Models.Auth.{AccessClaims}
use hrus.Models.Leave.{LeavePolicy}
use hrus.Db.{Db, Env, record_audit}
use hrus.Leave.Config.{get_leave_type}
use hrus.Leave.Config.Types.{LeavePolicyCreate, LeavePolicyUpdate, sent_or, audit_unless}

unfoldable pub is_policy : ℕ → ℕ → LeavePolicy → Bool
is_policy tenant_id id p = p.tenant_id == tenant_id && p.id == id

-- `_get_policy`
unfoldable pub get_policy : ℕ → ℕ → Tx Db LeavePolicy
get_policy tenant_id policy_id = do
  found ← gets (λ db. find (is_policy tenant_id policy_id) db.leave_policies)
  or_raise not_found found

-- `coalesce(grade, "")`
abbrev pub or_empty : Option String → String
or_empty none = ""
or_empty (some s) = s

unfoldable pub has_rule : ℕ → ℕ → String → ℕ → LeavePolicy → Bool
has_rule tenant_id leave_type_id grade months p =
    p.tenant_id == tenant_id
    && p.leave_type_id == leave_type_id
    && str_eq (or_empty p.grade) grade
    && p.min_service_months == months

abbrev pub upper_grade : Env → Option String → Option String
upper_grade env none = none
upper_grade env (some g) = if str_eq g "" then none else some (env.upper (env.strip g))

abbrev pub new_policy : Env → ℕ → LeavePolicyCreate → ℕ → LeavePolicy
new_policy env tenant_id form id = record {
  id = id;
  tenant_id = tenant_id;
  leave_type_id = form.leave_type_id;
  grade = upper_grade env form.grade;
  min_service_months = form.min_service_months;
  annual_days = form.annual_days;
  max_carry_over_days = form.max_carry_over_days;
  carry_over_expiry_months = form.carry_over_expiry_months;
}

abbrev pub add_policy : LeavePolicy → Db → Db
add_policy p db = record db {
  leave_policies = db.leave_policies ++ p ∷ [];
  next_id = suc db.next_id;
}

unfoldable pub create_policy : Env → AccessClaims → LeavePolicyCreate → Tx Db LeavePolicy
create_policy env actor form = do
  get_leave_type actor.tenant_id form.leave_type_id
  duplicate ← gets (λ db.
      any
        (has_rule actor.tenant_id form.leave_type_id (or_empty (upper_grade env form.grade))
          form.min_service_months)
        db.leave_policies)
  raise_if duplicate (conflict Code.leave_policy_exists)
  id ← gets (λ db. db.next_id)
  let policy = new_policy env actor.tenant_id form id
  modify (add_policy policy)
  record_audit actor.tenant_id (some actor.user_id) "leave_policy.create" id
  pure policy

abbrev pub changed_policy : LeavePolicyUpdate → LeavePolicy → LeavePolicy
changed_policy form p = record p {
  annual_days = sent_or form.annual_days p.annual_days;
  max_carry_over_days = sent_or form.max_carry_over_days p.max_carry_over_days;
  carry_over_expiry_months = sent_or form.carry_over_expiry_months p.carry_over_expiry_months;
}

abbrev pub same_policy : LeavePolicy → LeavePolicy → Bool
same_policy p q =
    p.annual_days == q.annual_days
    && p.max_carry_over_days == q.max_carry_over_days
    && p.carry_over_expiry_months == q.carry_over_expiry_months

abbrev pub change_policy : LeavePolicy → (LeavePolicy → LeavePolicy) → Db → Db
change_policy p f db = record db {
  leave_policies = update_first (is_policy p.tenant_id p.id) f db.leave_policies;
}

unfoldable pub update_policy : AccessClaims → ℕ → LeavePolicyUpdate → Tx Db LeavePolicy
update_policy actor policy_id form = do
  before ← get_policy actor.tenant_id policy_id
  let after = changed_policy form before
  modify (change_policy before (changed_policy form))
  audit_unless (same_policy before after) actor "leave_policy.update" before.id
  pure after

abbrev pub remove_policy : ℕ → ℕ → Db → Db
remove_policy tenant_id id db = record db {
  leave_policies = filter (λ p. not (is_policy tenant_id id p)) db.leave_policies;
}

unfoldable pub delete_policy : AccessClaims → ℕ → Tx Db (Unit {0})
delete_policy actor policy_id = do
  policy ← get_policy actor.tenant_id policy_id
  modify (remove_policy actor.tenant_id policy.id)
  record_audit actor.tenant_id (some actor.user_id) "leave_policy.delete" policy_id
