-- ===== src/Leave/Expiry.antt =====
-- backend/app/services/leave_accrual.py, `expire_carry_over`: what was carried over and is neither
-- used nor applied for lapses on its date.
pub mod Bounds
use hrus.Base.{
  ℕ, ◌≡◌, refl, sym, ap, ◌∙◌, ◌≤◌, Bool, true, false, not, ◌&&◌, Option, none, some, List, [], ◌∷◌,
  ◌++◌, String, arith, ◌==◌, leb, if◌then◌else◌, is_some, find, filter, any, update_all, map,
  Bool-cases, inl, inr,
}
use hrus.Base.Int.{ℤ, pos, ◌+ℤ◌, ◌-ℤ◌, ltb_ℤ, max_ℤ, min_ℤ, int_laws}
use hrus.Calendar.{Date, ordinal, on_or_before}
use hrus.Models.Jobs.{Counts}
use hrus.Models.Leave.{LeaveType, LeaveBalance, available}
use hrus.Db.{Db, Env}
use hrus.Jobs.Execute.{add_count}
use hrus.Leave.Config.{is_leave_type}
use hrus.Leave.Accrual.{audit_changed}

abbrev lapses_by : Date → Option Date → Bool
lapses_by as_of none = false
lapses_by as_of (some d) = on_or_before d as_of

-- The rows that the query selects; the join asks for the leave type's row.
unfoldable pub is_expiring : List LeaveType → ℕ → ℕ → ℕ → Date → LeaveBalance → Bool
is_expiring types tenant_id first_id last_id as_of b =
    any (is_leave_type b.tenant_id b.leave_type_id) types
    && b.tenant_id == tenant_id
    && leb first_id b.employee_id
    && leb b.employee_id last_id
    && b.year == as_of.year
    && lapses_by as_of b.carry_over_expires_on
    && not (is_some b.carry_over_expired_at)

unfoldable pub unused : LeaveBalance → ℤ
unused b = max_ℤ (pos 0) (b.carried_over -ℤ b.used -ℤ b.pending)

unfoldable pub expire_balance : ℕ → LeaveBalance → LeaveBalance
expire_balance now b = record b {
  expired = b.expired +ℤ unused b;
  carry_over_expired_at = some now;
}

-- `result.add`, in the order of the rows.
unfoldable pub tally_expired : List LeaveBalance → Counts → Counts
tally_expired [] counts = counts
tally_expired (b ∷ bs) counts = tally_expired bs (
    add_count (if ltb_ℤ (pos 0) (unused b) then "carry_over_expired" else "carry_over_fully_used") 1
      counts)

-- The balances that lose days are audited.
unfoldable pub losing : List LeaveBalance → List ℕ
losing bs = map (λ (b : LeaveBalance). b.id) (filter (λ b. ltb_ℤ (pos 0) (unused b)) bs)

module _ (env : Env) (tenant_id first_id last_id : ℕ) (as_of : Date)
    (actor_user_id : Option ℕ) where
  abbrev pub expiring : Db → LeaveBalance → Bool
  expiring db = is_expiring db.leave_types tenant_id first_id last_id as_of

  unfoldable pub expire_carry_over : Db → Db × Counts
  expire_carry_over db =
      let balances = filter (expiring db) db.leave_balances in
      (
        record db {
          leave_balances = update_all (expiring db) (expire_balance env.now) db.leave_balances;
          audit_log =
              audit_changed tenant_id actor_user_id "leave_balance.carry_over_expired"
                (losing balances) db.audit_log;
        },
        tally_expired balances [],
      )
