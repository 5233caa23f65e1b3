-- ===== src/Leave/Ledger/Preserved.antt =====
-- Decisions and cancellations keep the balances equal to the days of the requests.
use hrus.Base.{◌≡◌, refl, true, some, inl, inr, find, Bool-cases, ltb, List, sum_by}
use hrus.Base.Int.{ℤ, pos, ◌+ℤ◌, ◌-ℤ◌, int_laws}
use hrus.Tx.{Commits, Commits-map, Commits-bind, modify}
use hrus.Leave.Config.{is_leave_type}
use hrus.Leave.Balances.{Key, is_balance, find_balance}
use hrus.Models.Leave.{LeaveType, LeaveRequest, LeaveRequestStatus, LeaveBalance}
use hrus.Db.{Db, Env}
use hrus.Leave.Requests.Lookup.{is_request}
use hrus.Leave.Requests.Decide.{
  Decision, approve, reject, request_key, release_balance, settle, change_request, close,
  raise_level, skip_remaining,
}
use hrus.Leave.Ledger.{
  Tracks, counted, pending_weight, used_weight, IsConsistent, IsOff, requires, pending_days,
  used_days,
}
use hrus.Leave.Ledger.Moves.{
  held, spent, change_request-IsOff, IsConsistent-IsOff, IsOff-IsConsistent,
}
use hrus.Leave.Ledger.Release.{IsReleased, release_balance-IsReleased}

-- The ledger reads three tables.
pub record SameLedger (db db' : Db) : Type 0 where
  pub types : db'.leave_types ≡ db.leave_types
  pub requests : db'.leave_requests ≡ db.leave_requests
  pub balances : db'.leave_balances ≡ db.leave_balances

abbrev Reads : List LeaveType → List LeaveRequest → List LeaveBalance → Type 0
Reads types requests balances =
    (k : Key)
    → counted (find (is_leave_type k.tenant_id k.leave_type_id) types) ≡ true
    → Tracks (find (is_balance k) balances) (pos (sum_by (pending_weight k) requests))
        (pos (sum_by (used_weight k) requests))

pub SameLedger-IsConsistent : (db db' : Db) → SameLedger db db' → IsConsistent db → IsConsistent db'
unfolding requires pending_days used_days find_balance
SameLedger-IsConsistent db db' same c =
    let before : Reads db.leave_types db.leave_requests db.leave_balances = c.at_key in
    let after : Reads db'.leave_types db'.leave_requests db'.leave_balances =
      rw (same.types, same.requests, same.balances) before in
    record { at_key = after }

pub IsOff-balanced :
    (r : LeaveRequest) (dp du : ℤ) (db : Db)
    → dp ≡ pos 0
    → du ≡ pos 0
    → IsOff (request_key r) dp du db
    → IsConsistent db
IsOff-balanced r dp du db ep eu off = IsOff-IsConsistent (request_key r) db (rw (ep, eu) at off)

pub skip_remaining-IsConsistent :
    (r : LeaveRequest) (db : Db) → IsConsistent db → IsConsistent (skip_remaining r db)
unfolding skip_remaining
skip_remaining-IsConsistent r db =
    SameLedger-IsConsistent db _ (record { types = refl; requests = refl; balances = refl })

-- The status of a request changes, and its balance gets back what it holds no more.
module _ (env : Env) (r : LeaveRequest) (f : LeaveRequest → LeaveRequest) (p u : ℤ) (db : Db)
    (c : IsConsistent db) (found : find (is_request r.tenant_id r.id) db.leave_requests ≡ some r)
    (same : request_key (f r) ≡ request_key r) (ep : pos 0 +ℤ (held r -ℤ held (f r)) +ℤ p ≡ pos 0)
    (eu : pos 0 +ℤ (spent r -ℤ spent (f r)) +ℤ u ≡ pos 0) where
  change_release-IsConsistent :
      Commits IsConsistent (release_balance env r p u (change_request r f db))
  change_release-IsConsistent =
      Commits-map
        (IsReleased r (pos 0 +ℤ (held r -ℤ held (f r)) +ℤ p)
          (pos 0 +ℤ (spent r -ℤ spent (f r)) +ℤ u) (change_request r f db))
        IsConsistent _ (λ db' x. IsOff-balanced r _ _ db' ep eu x.off)
        (release_balance-IsReleased env r _ _ p u (change_request r f db) (
          change_request-IsOff (pos 0) (pos 0) r f db found same
            (IsConsistent-IsOff (request_key r) db c)))

module _ (env : Env) (r : LeaveRequest) (db : Db) (c : IsConsistent db)
    (found : find (is_request r.tenant_id r.id) db.leave_requests ≡ some r)
    (waiting : r.status ≡ LeaveRequestStatus.pending) where
  raised : Commits IsConsistent (modify (change_request r raise_level) db)
  raised = IsOff-balanced r _ _ _ (omega int_laws) (omega int_laws) (
      change_request-IsOff (pos 0) (pos 0) r raise_level db found refl
        (IsConsistent-IsOff (request_key r) db c))

  rejected : Commits IsConsistent (
      release_balance env r
        (pos 0 -ℤ pos r.days)
        (pos 0)
        (change_request r (close LeaveRequestStatus.rejected env.now) db))
  rejected =
      change_release-IsConsistent env r (close LeaveRequestStatus.rejected env.now) _ _ db c found
        refl (rw waiting (omega int_laws)) (rw waiting (omega int_laws))

  approved : Commits IsConsistent (
      release_balance env r
        (pos 0 -ℤ pos r.days)
        (pos r.days)
        (change_request r (close LeaveRequestStatus.approved env.now) db))
  approved =
      change_release-IsConsistent env r (close LeaveRequestStatus.approved env.now) _ _ db c found
        refl (rw waiting (omega int_laws)) (rw waiting (omega int_laws))

  pub settle-IsConsistent : (d : Decision) → Commits IsConsistent (settle env r d db)
  unfolding settle
  settle-IsConsistent reject =
      Commits-bind IsConsistent IsConsistent (release_balance env r (pos 0 -ℤ pos r.days) (pos 0)) _
        (change_request r (close LeaveRequestStatus.rejected env.now) db) rejected
        λ _ db' c'. skip_remaining-IsConsistent r db' c'
  settle-IsConsistent approve = elim (Bool-cases (ltb r.current_level r.approval_levels)) [
    | inl e ↦ rw e raised
    | inr e ↦ rw e approved
  ]
