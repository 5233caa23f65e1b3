-- ===== src/Leave/Config/Keyed/Rows.antt =====
-- The unique keys of backend/app/models/leave.py, and rows that are added or changed.
use hrus.Base.{
  ℕ, ◌≤◌, ◌≡◌, sym, ◌∙◌, Bool, true, false, some, String, str_eq→eq, find, any, count,
  count-append_one, any-same, arith, find-holds,
}
use hrus.Calendar.{Date}
use hrus.Tx.{Commits}
use hrus.Models.Auth.{AccessClaims}
use hrus.Models.Leave.{LeaveType, LeavePolicy, HolidayCalendar}
use hrus.Db.{Db, record_audit}
use hrus.Leave.Config.{is_leave_type}
use hrus.Leave.Config.Types.{has_code, add_leave_type, audit_unless}
use hrus.Leave.Config.Policies.{is_policy, or_empty, has_rule, add_policy}
use hrus.Leave.Config.Holidays.{is_holiday, add_holiday}

pub record IsKeyed (db : Db) : Type 0 where
  pub codes : (t : ℕ) (c : String) → count (has_code t c) db.leave_types ≤ 1
  pub rules :
      (t type months : ℕ) (g : String) → count (has_rule t type g months) db.leave_policies ≤ 1
  pub dates : (t : ℕ) (d : Date) → count (is_holiday t d) db.holidays ≤ 1

has_code-key :
    (t : ℕ) (c : String) (x : LeaveType) → has_code t c x ≡ true → (x.tenant_id ≡ t) × (x.code ≡ c)
unfolding has_code
has_code-key t c x h = (ground arith, str_eq→eq x.code c (ground arith))

has_rule-key :
    (t type months : ℕ) (g : String) (x : LeavePolicy)
    → has_rule t type g months x ≡ true
    → (x.tenant_id ≡ t)
      × (x.leave_type_id ≡ type)
      × (or_empty x.grade ≡ g)
      × (x.min_service_months ≡ months)
unfolding has_rule
has_rule-key t type months g x h =
    (ground arith, ground arith, str_eq→eq (or_empty x.grade) g (ground arith), ground arith)

is_holiday-same :
    (t : ℕ) (d : Date) (h x : HolidayCalendar)
    → is_holiday t d h ≡ true
    → is_holiday t d x ≡ is_holiday h.tenant_id h.holiday_date x
unfolding is_holiday
is_holiday-same t d h x e = ground arith

module _ (actor : AccessClaims) (db : Db) (k : IsKeyed db) where
  pub add_type-IsKeyed :
      (x : LeaveType)
      → any (has_code x.tenant_id x.code) db.leave_types ≡ false
      → IsKeyed (add_leave_type x db)
  add_type-IsKeyed x free = record {
    codes = λ t c.
        count-append_one (has_code t c) db.leave_types x (k.codes t c)
          (λ h. let key = has_code-key t c x h in rw (sym key.0, sym key.1) free);
    rules = k.rules;
    dates = k.dates;
  }

  pub add_policy-IsKeyed :
      (x : LeavePolicy)
      → any
          (has_rule x.tenant_id x.leave_type_id (or_empty x.grade) x.min_service_months)
          db.leave_policies
        ≡ false
      → IsKeyed (add_policy x db)
  add_policy-IsKeyed x free = record {
    codes = k.codes;
    rules = λ t type months g.
        count-append_one (has_rule t type g months) db.leave_policies x (k.rules t type months g)
          (λ h.
            let key = has_rule-key t type months g x h in
            rw (sym key.0, sym key.1, sym key.2, sym key.3) free);
    dates = k.dates;
  }

  pub add_holiday-IsKeyed :
      (x : HolidayCalendar)
      → any (is_holiday x.tenant_id x.holiday_date) db.holidays ≡ false
      → IsKeyed (add_holiday x db)
  add_holiday-IsKeyed x free = record {
    codes = k.codes;
    rules = k.rules;
    dates = λ t d.
        count-append_one (is_holiday t d) db.holidays x (k.dates t d)
          (λ h. any-same _ _ db.holidays (λ y. is_holiday-same t d x y h) ∙ free);
  }

  pub audited-IsKeyed :
      (action : String) (id : ℕ)
      → Commits IsKeyed (record_audit actor.tenant_id (some actor.user_id) action id db)
  unfolding record_audit
  audited-IsKeyed action id = record { codes = k.codes; rules = k.rules; dates = k.dates }

  pub audit_unless-IsKeyed :
      (b : Bool) (action : String) (id : ℕ) → Commits IsKeyed (audit_unless b actor action id db)
  audit_unless-IsKeyed true action id = k
  audit_unless-IsKeyed false action id = audited-IsKeyed action id

pub own_type :
    (t i : ℕ) (x : LeaveType) (db : Db)
    → find (is_leave_type t i) db.leave_types ≡ some x
    → find (is_leave_type x.tenant_id x.id) db.leave_types ≡ some x
unfolding is_leave_type
own_type t i x db h =
    let found = find-holds _ db.leave_types x h in
    let tenant : x.tenant_id ≡ t = ground arith in
    let same : x.id ≡ i = ground arith in simp (tenant, same) h

pub own_policy :
    (t i : ℕ) (x : LeavePolicy) (db : Db)
    → find (is_policy t i) db.leave_policies ≡ some x
    → find (is_policy x.tenant_id x.id) db.leave_policies ≡ some x
unfolding is_policy
own_policy t i x db h =
    let found = find-holds _ db.leave_policies x h in
    let tenant : x.tenant_id ≡ t = ground arith in
    let same : x.id ≡ i = ground arith in simp (tenant, same) h
