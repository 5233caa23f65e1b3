-- ===== src/Leave/Ledger/Evaluated.antt =====
-- What `_evaluate` establishes, for `validate` and for `submit`.
use hrus.Base.{
  ℕ, ◌≡◌, ◌⊎◌, refl, Bool, true, false, Option, none, some, inl, inr, arith, find, Option-cases,
  List, [], ◌∷◌, Bool-cases,
}
use hrus.Base.Int.{pos}
use hrus.Errors.{unexpected}
use hrus.Tx.{or_raise, or_raise-Yields, Yields-read, Yields, Yields-bind, Yields-map}
use hrus.Models.Auth.{AccessClaims}
use hrus.Models.Leave.{LeaveType, LeaveBalance}
use hrus.Rules.Leave.{Violation, check_range, working_days}
use hrus.Db.{Db, Env}
use hrus.Leave.Config.{is_leave_type, get_leave_type, holidays_between}
use hrus.Leave.Balances.{Key, get_balance}
use hrus.Leave.Requests.Evaluate.{
  LeaveRequestInput, Evaluation, evaluate, evaluate_range, in_range, balance_for, input_key,
  collect, to_result, is_empty, inactive_type,
}
use hrus.Leave.Ledger.{IsConsistent}
use hrus.Leave.Ledger.Keys.{same_key_refl}
use hrus.Leave.Ledger.Moves.{
  SameRows, IsFetched, get_balance-IsFetched, fetch-IsOff, IsConsistent-IsOff, IsOff-IsConsistent,
}
use hrus.Leave.Ledger.Allowed.{
  HoldsRow, IsAllowed, check_working_days-none, check_range-none, check_employee_active-none,
  check_notice-none, check_max_days-none, check_no_overlap-none, inactive_type-none, conflicts-none,
  balance_violation-none,
}

pub record HasBalance (k : Key) (needed : Bool) (db : Db) (o : Option LeaveBalance) (db' : Db)
    : Type 0 where
  pub row : HoldsRow k db' needed o
  pub keeps : IsConsistent db → IsConsistent db'
  pub same : SameRows db db'

fetched-HasBalance :
    (k : Key) (db : Db) (b : LeaveBalance) (db' : Db)
    → IsFetched k db b db'
    → HasBalance k true db (some b) db'
fetched-HasBalance k db b db' f = record {
  row = (f.keyed, ground (arith, f.views k, same_key_refl k));
  keeps = λ c.
      IsOff-IsConsistent k db'
        (fetch-IsOff k k (pos 0) (pos 0) db b db' (IsConsistent-IsOff k db c) f);
  same = f.same;
}

pub balance_for-HasBalance :
    (env : Env) (needed : Bool) (k : Key) (db : Db)
    → Yields (HasBalance k needed db) (balance_for env needed k db)
unfolding balance_for
balance_for-HasBalance env false k db = record {
  row = tt;
  keeps = λ c. c;
  same = record { requests = refl; leave_types = refl; approvals = refl; jobs = refl };
}
balance_for-HasBalance env true k db =
    Yields-bind (IsFetched k db) (HasBalance k true db) (get_balance env k) _ db
      (get_balance-IsFetched env k db) λ b db' e f. fetched-HasBalance k db b db' f

pub record IsEvaluated (env : Env) (tenant_id employee_id : ℕ) (data' : LeaveRequestInput) (db : Db)
    (ev : Evaluation) (db' : Db) : Type 0 where
  pub typed : find (is_leave_type tenant_id data'.leave_type_id) db.leave_types ≡ some ev.leave_type
  pub keeps : IsConsistent db → IsConsistent db'
  pub same : SameRows db db'
  pub row :
      ev.result.valid ≡ true
      → HoldsRow
          (input_key tenant_id employee_id ev.leave_type data')
          db'
          ev.leave_type.requires_balance
          ev.balance
  pub allowed : ev.result.valid ≡ true → IsAllowed env tenant_id employee_id data' db ev db'

-- No check has found a violation.
abbrev pub AllClear : List (Option Violation) → Type 0
AllClear [] = Unit
AllClear (o ∷ os) = (o ≡ none) × AllClear os

pub collect-AllClear : (os : List (Option Violation)) → is_empty (collect os) ≡ true → AllClear os
unfolding collect
collect-AllClear [] h = tt
collect-AllClear (none ∷ os) h = (refl, collect-AllClear os h)
collect-AllClear (some v ∷ os) h = ground arith

module _ (env : Env) (tenant_id employee_id : ℕ) (leave_type : LeaveType)
    (data' : LeaveRequestInput) (db : Db)
    (typed : find (is_leave_type tenant_id data'.leave_type_id) db.leave_types
      ≡ some leave_type) where
  range_ok :
      check_range data'.start_date data'.end_date ≡ none
      → Yields
          (IsEvaluated env tenant_id employee_id data' db)
          (evaluate_range env tenant_id employee_id leave_type data' db)
  unfolding evaluate_range to_result
  range_ok ranged =
      let start = data'.start_date in
      let end = data'.end_date in
      let holidays = holidays_between db tenant_id start end in
      let k = input_key tenant_id employee_id leave_type data' in
      Yields-read (IsEvaluated env tenant_id employee_id data' db)
        (λ days. working_days start end holidays ≡ some days)
        (or_raise unexpected (working_days start end holidays)) _ db
        (or_raise-Yields unexpected (working_days start end holidays) db)
        λ days counted.
          Yields-bind (HasBalance k leave_type.requires_balance db)
            (IsEvaluated env tenant_id employee_id data' db)
            (balance_for env leave_type.requires_balance k) _ db
            (balance_for-HasBalance env leave_type.requires_balance k db)
            λ o db' e has. record {
              typed = typed;
              keeps = has.keeps;
              same = has.same;
              row = λ _. has.row;
              allowed = λ valid.
                  let clear = collect-AllClear _ valid in
                  let dates = check_range-none start end ranged in
                  record {
                    of_type = typed;
                    offered = inactive_type-none leave_type clear.0;
                    in_order = dates.0;
                    same_year = dates.1;
                    short = dates.2;
                    counted = counted;
                    positive = check_working_days-none days clear.1.0;
                    employed = check_employee_active-none _ clear.1.1.0;
                    noticed = check_notice-none _ _ _ _ clear.1.1.1.0;
                    within = check_max_days-none _ _ clear.1.1.1.1.0;
                    clear =
                        conflicts-none tenant_id employee_id start end db.leave_requests
                          (check_no_overlap-none _ clear.1.1.1.1.1.0);
                    funded =
                        balance_violation-none leave_type.requires_balance k o days db' has.row
                          clear.1.1.1.1.1.1.0;
                  };
            }

  range_bad :
      (v : Violation)
      → Yields
          (IsEvaluated env tenant_id employee_id data' db)
          (in_range env tenant_id employee_id leave_type data' (some v) db)
  unfolding to_result
  range_bad v = record {
    typed = typed;
    keeps = λ c. c;
    same = record { requests = refl; leave_types = refl; approvals = refl; jobs = refl };
    row = λ valid. never (collect-AllClear _ valid);
    allowed = λ valid. never (collect-AllClear _ valid);
  }
    where
      never : {A : Type 0} → AllClear (inactive_type leave_type ∷ some v ∷ []) → A
      never h = absurd (ground arith)

  pub in_range-IsEvaluated :
      (o : Option Violation)
      → check_range data'.start_date data'.end_date ≡ o
      → Yields
          (IsEvaluated env tenant_id employee_id data' db)
          (in_range env tenant_id employee_id leave_type data' o db)
  in_range-IsEvaluated none e = range_ok e
  in_range-IsEvaluated (some v) e = range_bad v

-- What the evaluation establishes for the submission that follows.
pub evaluate-IsEvaluated :
    (env : Env) (actor : AccessClaims) (employee_id : ℕ) (data' : LeaveRequestInput) (db : Db)
    → actor.employee_id ≡ some employee_id
    → Yields (IsEvaluated env actor.tenant_id employee_id data' db) (evaluate env actor data' db)
unfolding evaluate get_leave_type
evaluate-IsEvaluated env actor employee_id data' db me =
    elim (Option-cases (find (is_leave_type actor.tenant_id data'.leave_type_id) db.leave_types)) [
      | inl e ↦ rw (me, e) tt
      | inr (t, e) ↦
          simp (me, e)
            (in_range-IsEvaluated env actor.tenant_id employee_id t data' db e
              (check_range data'.start_date data'.end_date) refl)
    ]

-- For an actor with an employee profile, an evaluation that is not refused as invalid is of a request
-- that the rules allow: its leave type is that of the tenant and active; its dates are in order, of one
-- year and at most 184 days; its days are the working days between them and at least one, and no more
-- than the type's most days; the employee is active on the first day; that day is as far ahead as the
-- type asks, or past and the type allows it; no pending or approved request of the employee, itself of
-- at most 184 days, has a day in common; and where the type requires a balance, the stored balance of
-- the year has the days available.
pub evaluate-IsAllowed :
    (env : Env) (actor : AccessClaims) (employee_id : ℕ) (data' : LeaveRequestInput) (db : Db)
    → actor.employee_id ≡ some employee_id
    → Yields
        (λ ev db'.
          (ev.result.valid ≡ false) ⊎ IsAllowed env actor.tenant_id employee_id data' db ev db')
        (evaluate env actor data' db)
evaluate-IsAllowed env actor employee_id data' db me =
    Yields-map (IsEvaluated env actor.tenant_id employee_id data' db) _
      (evaluate env actor data' db)
      (λ ev db' h. elim (Bool-cases ev.result.valid) [
        | inl valid ↦ inr (h.allowed valid)
        | inr refused ↦ inl refused
      ])
      (evaluate-IsEvaluated env actor employee_id data' db me)
