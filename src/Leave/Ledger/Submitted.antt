-- ===== src/Leave/Ledger/Submitted.antt =====
-- `submit` keeps the ledger: the new request's days are held on its balance.
use hrus.Base.{
  ℕ, suc, ◌+◌, ◌≡◌, refl, sym, ap, Bool, true, false, Option, none, some, inl, inr, arith, find,
  find-holds, any, ◌∙◌, List, [], ◌∷◌, String, sum_by, sum_by-append, Option-cases,
}
use hrus.Base.Int.{pos, ◌+ℤ◌, ◌-ℤ◌, int_laws, +ℤ_zero}
use hrus.Errors.{Code, conflict}
use hrus.Tx.{
  Tx, modify, raise_if, ◌>>◌, Commits, Commits-bind, Commits-read, Commits-map, Yields, Yields-bind,
  Yields-Commits,
}
use hrus.Models.Auth.{AccessClaims}
use hrus.Models.Leave.{LeaveType, LeaveBalance, LeaveRequest, LeaveRequestStatus}
use hrus.Rules.Leave.{Violation}
use hrus.Db.{Db, Env, new_id, record_audit}
use hrus.Leave.Config.{is_leave_type}
use hrus.Leave.Balances.{Key, find_balance}
use hrus.Leave.Requests.Lookup.{Detail, detail}
use hrus.Leave.Requests.Evaluate.{LeaveRequestInput, Evaluation, evaluate, input_key}
use hrus.Leave.Requests.Submit.{
  add_request, add_approval, add_approvals, new_request, hold, hold_days, submit, submit_new,
  or_submit, ensure_valid, clashes, find_existing,
}
use hrus.Leave.Requests.Decide.{request_key}
use hrus.Leave.Requests.Reads.{detail-reads, raise_if-reads}
use hrus.Leave.Ledger.{
  IsConsistent, IsOff, offset, pending_weight, used_weight, pending_days, used_days, requires,
  counted,
}
use hrus.Leave.Ledger.Moves.{change-IsOff, IsOff-uncounted, IsOff-IsConsistent}
use hrus.Leave.Ledger.Preserved.{SameLedger-IsConsistent, IsOff-balanced}
use hrus.Leave.Ledger.Allowed.{HoldsRow}
use hrus.Leave.Ledger.Evaluated.{IsEvaluated, evaluate-IsEvaluated}
use hrus.Leave.Ledger.Services.{reported}

pending_add : (old w : ℕ) → pos (old + (w + 0)) +ℤ (pos 0 -ℤ pos w) ≡ pos old
pending_add old w = omega int_laws

-- A pending request that is added holds days that no balance holds yet.
module _ (r : LeaveRequest) (db : Db) (waiting : r.status ≡ LeaveRequestStatus.pending) where
  pending_added :
      (l : Key)
      → pos (pending_days l (add_request r db)) +ℤ offset l (request_key r) (pos 0 -ℤ pos r.days)
        ≡ pos (pending_days l db)
  unfolding pending_days add_request sum_by
  pending_added l = ground (
    arith,
    sum_by-append (pending_weight l) db.leave_requests (r ∷ []),
    pending_add (pending_days l db) r.days,
    +ℤ_zero (pos (pending_days l db)),
  )

  used_added :
      (l : Key)
      → pos (used_days l (add_request r db)) +ℤ offset l (request_key r) (pos 0)
        ≡ pos (used_days l db)
  unfolding used_days add_request sum_by
  used_added l = ground (
    arith,
    sum_by-append (used_weight l) db.leave_requests (r ∷ []),
    +ℤ_zero (pos (used_days l db)),
  )

  add_request-IsOff :
      IsConsistent db → IsOff (request_key r) (pos 0 -ℤ pos r.days) (pos 0) (add_request r db)
  unfolding requires find_balance add_request
  add_request-IsOff c = record { at_key = λ l h. rw (pending_added l, used_added l) (c.at_key l h) }

  -- With the days held on its balance, if it has one, the ledger is consistent again.
  held-IsConsistent :
      (needed : Bool) (o : Option LeaveBalance)
      → requires db (request_key r) ≡ needed
      → HoldsRow (request_key r) db needed o
      → IsConsistent db
      → IsConsistent (hold_days o r.days (add_request r db))
  unfolding hold_days requires find_balance add_request
  held-IsConsistent true (some b) n (keyed, found) c = rw keyed (
      IsOff-balanced r _ _ _ (omega int_laws) (omega int_laws) (
        change-IsOff (request_key r) (pos 0 -ℤ pos r.days) (pos 0) (pos r.days) (pos 0)
          (add_request r db) b found (hold r.days) (λ x. refl) refl (sym (+ℤ_zero b.used))
          (add_request-IsOff c)))
  held-IsConsistent true none n h c = absurd h
  held-IsConsistent false none n h c = IsOff-IsConsistent (request_key r) _ (
      IsOff-uncounted (request_key r) (pos 0 -ℤ pos r.days) (pos 0) (pos 0) (pos 0) _ n
        (add_request-IsOff c))
  held-IsConsistent false (some b) n h c = absurd h

add_approvals-IsConsistent :
    (r : LeaveRequest) (level : ℕ) (approvers : List (Option ℕ)) (db : Db)
    → IsConsistent db
    → Commits IsConsistent (add_approvals r level approvers db)
unfolding add_approvals new_id add_approval
add_approvals-IsConsistent r level [] db c = c
add_approvals-IsConsistent r level (a ∷ as') db c =
    add_approvals-IsConsistent r (suc level) as' _
      (SameLedger-IsConsistent db _ (record { types = refl; requests = refl; balances = refl }) c)

ensure_valid-reads :
    (v : Bool) (errors : List Violation) (db : Db)
    → Yields (λ _ s. (s ≡ db) × (v ≡ true)) (ensure_valid v errors db)
unfolding ensure_valid
ensure_valid-reads true errors db = (refl, refl)
ensure_valid-reads false [] db = tt
ensure_valid-reads false (v ∷ vs) db = tt

leave_type_id : (t i : ℕ) (kind : LeaveType) → is_leave_type t i kind ≡ true → kind.id ≡ i
unfolding is_leave_type
leave_type_id t i kind h = ground arith

requires_typed :
    (t e : ℕ) (data' : LeaveRequestInput) (kind : LeaveType) (db : Db)
    → find (is_leave_type t data'.leave_type_id) db.leave_types ≡ some kind
    → requires db (input_key t e kind data') ≡ kind.requires_balance
unfolding requires
requires_typed t e data' kind db h =
    let same =
      leave_type_id t data'.leave_type_id kind
        (find-holds (is_leave_type t data'.leave_type_id) db.leave_types kind h) in
    ap (λ (i : ℕ). counted (find (is_leave_type t i) db.leave_types)) same ∙ ap counted h

HoldsRow-same :
    (k : Key) (db db' : Db) (needed : Bool) (o : Option LeaveBalance)
    → find_balance k db' ≡ find_balance k db
    → HoldsRow k db needed o
    → HoldsRow k db' needed o
HoldsRow-same k db db' true (some b) e h = (h.0, e ∙ h.1)
HoldsRow-same k db db' true none e h = h
HoldsRow-same k db db' false (some b) e h = h
HoldsRow-same k db db' false none e h = h

module _ (env : Env) (actor : AccessClaims) (employee_id : ℕ) (data' : LeaveRequestInput)
    (key : Option String) where
  abbrev request_of : ℕ → Evaluation → LeaveRequest
  request_of id ev = new_request env actor employee_id id ev data' key

  -- The writes of `submit`, once the evaluation is valid.
  abbrev finish : ℕ → Evaluation → List (Option ℕ) → Tx Db Detail
  finish id ev approvers =
      modify (λ db. hold_days ev.balance ev.result.days (add_request (request_of id ev) db))
      >> (add_approvals (request_of id ev) 1 approvers
          >> (record_audit actor.tenant_id (some actor.user_id) "leave_request.submit" id
              >> detail actor.tenant_id id))

  finish-IsConsistent :
      (id : ℕ) (ev : Evaluation) (approvers : List (Option ℕ)) (db : Db)
      → IsConsistent (hold_days ev.balance ev.result.days (add_request (request_of id ev) db))
      → Commits IsConsistent (finish id ev approvers db)
  finish-IsConsistent id ev approvers db c =
      Commits-bind IsConsistent IsConsistent (add_approvals (request_of id ev) 1 approvers) _ _
        (add_approvals-IsConsistent (request_of id ev) 1 approvers _ c)
        λ _ db' c'. reported actor.tenant_id (some actor.user_id) "leave_request.submit" id db' c'

  written-IsConsistent :
      (id : ℕ) (ev : Evaluation) (db db' : Db)
      → IsEvaluated env actor.tenant_id employee_id data' db ev db'
      → ev.result.valid ≡ true
      → IsConsistent db
      → IsConsistent (
          hold_days ev.balance ev.result.days
            (add_request (request_of id ev) (record db' { next_id = suc db'.next_id })))
  unfolding new_request find_balance
  written-IsConsistent id ev db db' e valid c =
      let k = input_key actor.tenant_id employee_id ev.leave_type data' in
      let next : Db = record db' { next_id = suc db'.next_id } in
      held-IsConsistent (request_of id ev) next refl ev.leave_type.requires_balance ev.balance
        (requires_typed actor.tenant_id employee_id data' ev.leave_type next
          (rw e.same.leave_types e.typed))
        (HoldsRow-same k db' next ev.leave_type.requires_balance ev.balance refl (e.row valid))
        (SameLedger-IsConsistent db' next
          (record { types = refl; requests = refl; balances = refl }) (e.keeps c))

  submit_new-IsConsistent :
      (db : Db)
      → actor.employee_id ≡ some employee_id
      → IsConsistent db
      → Commits IsConsistent (submit_new env actor employee_id data' key db)
  unfolding submit_new new_id
  submit_new-IsConsistent db me c =
      Yields-bind (IsEvaluated env actor.tenant_id employee_id data' db) (λ _ s. IsConsistent s)
        (evaluate env actor data') _ db (evaluate-IsEvaluated env actor employee_id data' db me)
        λ ev db' eq e.
          Commits-read IsConsistent (λ _. ev.result.valid ≡ true)
            (ensure_valid ev.result.valid ev.result.errors) _ db'
            (ensure_valid-reads ev.result.valid ev.result.errors db')
            λ _ valid.
              let clash = any (clashes (request_of db'.next_id ev)) db'.leave_requests in
              Commits-read IsConsistent (λ _. clash ≡ false)
                (raise_if clash (conflict Code.overlapping_request)) _ _
                (raise_if-reads _ clash (conflict Code.overlapping_request))
                λ _ _.
                  finish-IsConsistent db'.next_id ev _ _
                    (written-IsConsistent db'.next_id ev db db' e valid c)

-- From consistent balances, a submission that succeeds leaves consistent balances, whether it adds
-- a request or finds the one of its idempotency key.
pub submit-IsConsistent :
    (env : Env) (actor : AccessClaims) (data' : LeaveRequestInput) (key : Option String) (db : Db)
    → IsConsistent db
    → Commits IsConsistent (submit env actor data' key db)
unfolding submit
submit-IsConsistent env actor data' key db c = elim (Option-cases actor.employee_id) [
  | inl e ↦ rw e tt
  | inr (me, e) ↦ simp e (by_key me e (find_existing actor.tenant_id me key db))
]
  where
    by_key :
        (me : ℕ)
        → actor.employee_id ≡ some me
        → (o : Option LeaveRequest) → Commits IsConsistent (or_submit env actor me data' key o db)
    by_key me e none = submit_new-IsConsistent env actor me data' key db e c
    by_key me e (some r) =
        Commits-map (λ s. s ≡ db) IsConsistent (detail actor.tenant_id r.id db) (λ s h. rw h c)
          (Yields-Commits db (λ _. Unit {0}) (detail actor.tenant_id r.id db)
            (detail-reads db actor.tenant_id r.id))
