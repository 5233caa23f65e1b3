-- ===== src/Tests/Leave.antt =====
-- A leave request of the first employee of `company`: submitted, approved, and cancelled.
use hrus.Base.{◌⊎◌, ◌≡◌, refl, false, none, sum_by, find}
use hrus.Base.Int.{negsuc}
use hrus.Errors.{Result, ok, err}
use hrus.Tx.{Commits, Yields}
use hrus.Db.{Db}
use hrus.Leave.Requests.Evaluate.{LeaveRequestInput, evaluate}
use hrus.Leave.Requests.Submit.{submit}
use hrus.Leave.Requests.Decide.{Decision, decide, cancel}
use hrus.Leave.Authority.{MayDecide, MayCancel, decide-MayDecide, cancel-MayCancel}
use hrus.Leave.Balances.{BalanceAdjustment, adjust_balance}
use hrus.Leave.Ledger.Adjusted.{IsAdjusted, adjust_balance-IsAdjusted}
use hrus.Leave.Ledger.{IsConsistent, pending_days, used_days}
use hrus.Leave.Ledger.Submitted.{submit-IsConsistent}
use hrus.Leave.Ledger.Services.{decide-IsConsistent, cancel-IsConsistent}
use hrus.Leave.Ledger.Allowed.{IsAllowed}
use hrus.Leave.Ledger.Evaluated.{evaluate-IsAllowed}
use hrus.Tests.Rules.{day}
use hrus.Tests.CoreHr.{company, env, worker, boss}

abbrev wish : LeaveRequestInput
wish = record {
  leave_type_id = 3;
  start_date = day 2026 5 4;
  end_date = day 2026 5 5;
  reason = none;
}

-- The state that a call commits, or the state before it.
abbrev after : {A : Type 0} → Db → Result (A × Db) → Db
after db (ok (a, db')) = db'
after db (err e) = db

after-IsConsistent :
    {A : Type 0} (db : Db) (r : Result (A × Db))
    → IsConsistent db
    → Commits IsConsistent r
    → IsConsistent (after db r)
after-IsConsistent db (ok (a, db')) c h = h
after-IsConsistent db (err e) c h = c

abbrev pub submitted : Db
submitted = after company (submit env worker wish none company)

abbrev pub approved : Db
approved = after submitted (decide env boss 101 Decision.approve none submitted)

company-IsConsistent : IsConsistent company
unfolding sum_by pending_days used_days hrus.Leave.Balances.find_balance find
company-IsConsistent = record { at_key = λ k h. (refl, refl) }

submit-IsConsistent_example : Commits IsConsistent (submit env worker wish none company)
submit-IsConsistent_example = submit-IsConsistent env worker wish none company company-IsConsistent

submitted-IsConsistent : IsConsistent submitted
submitted-IsConsistent =
    after-IsConsistent company (submit env worker wish none company) company-IsConsistent
      (submit-IsConsistent env worker wish none company company-IsConsistent)

decide-IsConsistent_example :
    Commits IsConsistent (decide env boss 101 Decision.approve none submitted)
decide-IsConsistent_example =
    decide-IsConsistent env boss 101 Decision.approve none submitted submitted-IsConsistent

pub approved-IsConsistent : IsConsistent approved
approved-IsConsistent =
    after-IsConsistent submitted (decide env boss 101 Decision.approve none submitted)
      submitted-IsConsistent
      (decide-IsConsistent env boss 101 Decision.approve none submitted submitted-IsConsistent)

cancel-IsConsistent_example : Commits IsConsistent (cancel env worker 101 approved)
cancel-IsConsistent_example = cancel-IsConsistent env worker 101 approved approved-IsConsistent

evaluate-IsAllowed_example :
    Yields
      (λ ev db'. (ev.result.valid ≡ false) ⊎ IsAllowed env 1 10 wish company ev db')
      (evaluate env worker wish company)
evaluate-IsAllowed_example = evaluate-IsAllowed env worker 10 wish company refl

decide-MayDecide_example :
    Yields
      (λ _ _. MayDecide boss 101 submitted)
      (decide env boss 101 Decision.approve none submitted)
decide-MayDecide_example = decide-MayDecide env boss 101 Decision.approve none submitted

cancel-MayCancel_example :
    Yields (λ _ _. MayCancel worker 101 (day 2026 4 1) approved) (cancel env worker 101 approved)
cancel-MayCancel_example = cancel-MayCancel env worker 101 approved

abbrev correction : BalanceAdjustment
correction = record { employee_id = 10; leave_type_id = 3; year = 2026; delta = negsuc 1 }

adjust_balance-IsAdjusted_example : Yields IsAdjusted (adjust_balance env boss correction approved)
adjust_balance-IsAdjusted_example =
    adjust_balance-IsAdjusted env boss correction approved approved-IsConsistent
