-- ===== src/Leave/Config/Keyed.antt =====
-- The codes of leave types, the rules of policies and the dates of holidays are unique in a tenant,
-- as the unique indexes of backend/app/models/leave.py state.
pub mod Rows
use hrus.Base.{
  ℕ, ◌≤◌, ◌≡◌, sym, ◌∙◌, Bool, true, false, not, some, String, str_eq→eq, find, any, count,
  count-append_one, count-changed, count-filter, any-same, inl, arith, find-holds,
}
use mathlib.Core.Path.{subst}
use hrus.Calendar.{Date}
use hrus.Errors.{Code, ok, conflict, not_found}
use hrus.Tx.{
  Commits, Commits-read, Commits-bind, raise_if, raise_if-Yields, or_raise, or_raise-Yields,
}
use hrus.Models.Auth.{AccessClaims}
use hrus.Models.Leave.{LeaveType, LeavePolicy, HolidayCalendar}
use hrus.Db.{Db, Env, record_audit}
use hrus.Leave.Config.{is_leave_type, get_leave_type}
use hrus.Leave.Config.Types.{
  LeaveTypeCreate, LeaveTypeUpdate, LeavePolicyCreate, LeavePolicyUpdate, HolidayCreate, has_code,
  new_leave_type, add_leave_type, create_leave_type, changed_type, same_type, audit_unless,
  change_type, update_leave_type,
}
use hrus.Leave.Config.Policies.{
  is_policy, get_policy, or_empty, has_rule, new_policy, add_policy, create_policy, changed_policy,
  same_policy, change_policy, update_policy, remove_policy, delete_policy,
}
use hrus.Leave.Config.Holidays.{
  is_holiday, is_holiday_row, new_holiday, add_holiday, create_holiday, remove_holiday,
  delete_holiday,
}
use hrus.Leave.Config.Keyed.Rows.{
  IsKeyed, add_type-IsKeyed, add_policy-IsKeyed, add_holiday-IsKeyed, audited-IsKeyed,
  audit_unless-IsKeyed, own_type, own_policy,
}

-- A call of a service that commits.
pub data ConfigStep (env : Env) (actor : AccessClaims) : Db → Db → Type 0 where
  created_type :
      (db : Db) (form : LeaveTypeCreate) (r : LeaveType) (db' : Db)
      → create_leave_type env actor form db ≡ ok (r, db')
      → ConfigStep env actor db db'
  updated_type :
      (db : Db) (id : ℕ) (form : LeaveTypeUpdate) (r : LeaveType) (db' : Db)
      → update_leave_type actor id form db ≡ ok (r, db')
      → ConfigStep env actor db db'
  created_policy :
      (db : Db) (form : LeavePolicyCreate) (r : LeavePolicy) (db' : Db)
      → create_policy env actor form db ≡ ok (r, db')
      → ConfigStep env actor db db'
  updated_policy :
      (db : Db) (id : ℕ) (form : LeavePolicyUpdate) (r : LeavePolicy) (db' : Db)
      → update_policy actor id form db ≡ ok (r, db')
      → ConfigStep env actor db db'
  deleted_policy :
      (db : Db) (id : ℕ) (r : Unit {0}) (db' : Db)
      → delete_policy actor id db ≡ ok (r, db')
      → ConfigStep env actor db db'
  created_holiday :
      (db : Db) (form : HolidayCreate) (r : HolidayCalendar) (db' : Db)
      → create_holiday actor form db ≡ ok (r, db')
      → ConfigStep env actor db db'
  deleted_holiday :
      (db : Db) (id : ℕ) (r : Unit {0}) (db' : Db)
      → delete_holiday actor id db ≡ ok (r, db')
      → ConfigStep env actor db db'

module _ (env : Env) (actor : AccessClaims) (db : Db) (k : IsKeyed db) where
  type_changed :
      (x : LeaveType) (form : LeaveTypeUpdate)
      → find (is_leave_type x.tenant_id x.id) db.leave_types ≡ some x
      → IsKeyed (change_type x (changed_type form) db)
  unfolding has_code
  type_changed x form found = record {
    codes = λ t c. count-changed (has_code t c) _ _ db.leave_types x found (k.codes t c) inl;
    rules = k.rules;
    dates = k.dates;
  }

  policy_changed :
      (x : LeavePolicy) (form : LeavePolicyUpdate)
      → find (is_policy x.tenant_id x.id) db.leave_policies ≡ some x
      → IsKeyed (change_policy x (changed_policy form) db)
  unfolding has_rule
  policy_changed x form found = record {
    codes = k.codes;
    rules = λ t type months g.
        count-changed (has_rule t type g months) _ _ db.leave_policies x found
          (k.rules t type months g) inl;
    dates = k.dates;
  }

  create_type-IsKeyed :
      (form : LeaveTypeCreate) → Commits IsKeyed (create_leave_type env actor form db)
  unfolding create_leave_type record_audit
  create_type-IsKeyed form =
      let x = new_leave_type env actor.tenant_id form db.next_id in
      let taken = any (has_code x.tenant_id x.code) db.leave_types in
      Commits-read IsKeyed (λ _. taken ≡ false)
        (raise_if taken (conflict Code.leave_type_code_taken)) _ db (raise_if-Yields taken _ db)
        λ _ free.
          audited-IsKeyed actor (add_leave_type x db) (add_type-IsKeyed actor db k x free)
            "leave_type.create" db.next_id

  create_policy-IsKeyed :
      (form : LeavePolicyCreate) → Commits IsKeyed (create_policy env actor form db)
  unfolding create_policy record_audit get_leave_type
  create_policy-IsKeyed form =
      let x = new_policy env actor.tenant_id form db.next_id in
      let taken =
        any (has_rule x.tenant_id x.leave_type_id (or_empty x.grade) x.min_service_months)
          db.leave_policies in
      let found = find (is_leave_type actor.tenant_id form.leave_type_id) db.leave_types in
      Commits-read IsKeyed (λ t. found ≡ some t) (or_raise not_found found) _ db
        (or_raise-Yields _ found db)
        λ _ _.
          Commits-read IsKeyed (λ _. taken ≡ false)
            (raise_if taken (conflict Code.leave_policy_exists)) _ db (raise_if-Yields taken _ db)
            λ _ free.
              audited-IsKeyed actor (add_policy x db) (add_policy-IsKeyed actor db k x free)
                "leave_policy.create" db.next_id

  create_holiday-IsKeyed : (form : HolidayCreate) → Commits IsKeyed (create_holiday actor form db)
  unfolding create_holiday record_audit
  create_holiday-IsKeyed form =
      let x = new_holiday actor.tenant_id form db.next_id in
      let taken = any (is_holiday x.tenant_id x.holiday_date) db.holidays in
      Commits-read IsKeyed (λ _. taken ≡ false) (raise_if taken (conflict Code.holiday_exists)) _ db
        (raise_if-Yields taken _ db)
        λ _ free.
          audited-IsKeyed actor (add_holiday x db) (add_holiday-IsKeyed actor db k x free)
            "holiday.create" db.next_id

  update_type-IsKeyed :
      (id : ℕ) (form : LeaveTypeUpdate) → Commits IsKeyed (update_leave_type actor id form db)
  unfolding update_leave_type get_leave_type
  update_type-IsKeyed id form =
      let found = find (is_leave_type actor.tenant_id id) db.leave_types in
      Commits-read IsKeyed (λ t. found ≡ some t) (or_raise not_found found) _ db
        (or_raise-Yields _ found db)
        λ x at.
          let kept : IsKeyed (change_type x (changed_type form) db) =
            type_changed x form (own_type actor.tenant_id id x db at) in
          Commits-bind IsKeyed IsKeyed
            (audit_unless (same_type x (changed_type form x)) actor "leave_type.update" x.id) _ _
            (audit_unless-IsKeyed actor (change_type x (changed_type form) db) kept _
              "leave_type.update" x.id)
            λ _ db' h. h

  update_policy-IsKeyed :
      (id : ℕ) (form : LeavePolicyUpdate) → Commits IsKeyed (update_policy actor id form db)
  unfolding update_policy get_policy
  update_policy-IsKeyed id form =
      let found = find (is_policy actor.tenant_id id) db.leave_policies in
      Commits-read IsKeyed (λ t. found ≡ some t) (or_raise not_found found) _ db
        (or_raise-Yields _ found db)
        λ x at.
          let kept : IsKeyed (change_policy x (changed_policy form) db) =
            policy_changed x form (own_policy actor.tenant_id id x db at) in
          Commits-bind IsKeyed IsKeyed
            (audit_unless (same_policy x (changed_policy form x)) actor "leave_policy.update" x.id)
            _ _
            (audit_unless-IsKeyed actor (change_policy x (changed_policy form) db) kept _
              "leave_policy.update" x.id)
            λ _ db' h. h

  delete_policy-IsKeyed : (id : ℕ) → Commits IsKeyed (delete_policy actor id db)
  unfolding delete_policy get_policy
  delete_policy-IsKeyed id =
      let found = find (is_policy actor.tenant_id id) db.leave_policies in
      Commits-read IsKeyed (λ t. found ≡ some t) (or_raise not_found found) _ db
        (or_raise-Yields _ found db)
        λ x at.
          audited-IsKeyed actor (remove_policy actor.tenant_id x.id db)
            (record {
              codes = k.codes;
              rules = λ t type months g. omega (
                arith,
                k.rules t type months g,
                count-filter (has_rule t type g months)
                    (λ p. not (is_policy actor.tenant_id x.id p)) db.leave_policies,
              );
              dates = k.dates;
            })
            "leave_policy.delete" id

  delete_holiday-IsKeyed : (id : ℕ) → Commits IsKeyed (delete_holiday actor id db)
  unfolding delete_holiday
  delete_holiday-IsKeyed id =
      let found = find (is_holiday_row actor.tenant_id id) db.holidays in
      Commits-read IsKeyed (λ t. found ≡ some t) (or_raise not_found found) _ db
        (or_raise-Yields _ found db)
        λ x at.
          audited-IsKeyed actor (remove_holiday actor.tenant_id x.id db)
            (record {
              codes = k.codes;
              rules = k.rules;
              dates = λ t d. omega (
                arith,
                k.dates t d,
                count-filter (is_holiday t d) (λ h. not (is_holiday_row actor.tenant_id x.id h))
                    db.holidays,
              );
            })
            "holiday.delete" id

-- Whichever service of the leave configuration commits, a tenant still has one leave type at most of
-- each code, one policy at most for a leave type, grade and length of service, and one holiday at most
-- on a date, if it was so before.
pub ConfigStep-IsKeyed :
    {env : Env} {actor : AccessClaims} {db db' : Db}
    → ConfigStep env actor db db'
    → IsKeyed db
    → IsKeyed db'
ConfigStep-IsKeyed {env} {actor} (created_type db form r db' h) k =
    subst (Commits IsKeyed) h (create_type-IsKeyed env actor db k form)
ConfigStep-IsKeyed {env} {actor} (updated_type db id form r db' h) k =
    subst (Commits IsKeyed) h (update_type-IsKeyed env actor db k id form)
ConfigStep-IsKeyed {env} {actor} (created_policy db form r db' h) k =
    subst (Commits IsKeyed) h (create_policy-IsKeyed env actor db k form)
ConfigStep-IsKeyed {env} {actor} (updated_policy db id form r db' h) k =
    subst (Commits IsKeyed) h (update_policy-IsKeyed env actor db k id form)
ConfigStep-IsKeyed {env} {actor} (deleted_policy db id r db' h) k =
    subst (Commits IsKeyed) h (delete_policy-IsKeyed env actor db k id)
ConfigStep-IsKeyed {env} {actor} (created_holiday db form r db' h) k =
    subst (Commits IsKeyed) h (create_holiday-IsKeyed env actor db k form)
ConfigStep-IsKeyed {env} {actor} (deleted_holiday db id r db' h) k =
    subst (Commits IsKeyed) h (delete_holiday-IsKeyed env actor db k id)
