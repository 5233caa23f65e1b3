-- ===== src/Leave/Ledger/Services.antt =====
-- The services keep the ledger: `decide` and `cancel`.
use hrus.Base.{
  ℕ, ◌≡◌, refl, true, false, not, Option, some, String, ◌||◌, ◌⊎◌, arith, [], ◌∷◌, ◌++◌, find,
  is_some,
}
use hrus.Base.Int.{ℤ, pos, ◌+ℤ◌, ◌-ℤ◌, int_laws}
use hrus.Calendar.{Date}
use hrus.Errors.{Code, not_found, forbidden}
use hrus.Tx.{
  Tx, ◌>>◌, Commits, Commits-bind, Commits-read, Commits-map, Yields, Yields-Commits, raise_if,
  modify,
}
use hrus.Models.Auth.{AccessClaims, is_hr}
use hrus.Models.Leave.{LeaveRequest, LeaveRequestStatus, LeaveApproval}
use hrus.Rules.Leave.{ensure_pending, ensure_can_cancel}
use hrus.Db.{Db, Env, record_audit}
use hrus.Leave.Requests.Lookup.{Detail, detail, load}
use hrus.Leave.Requests.Decide.{
  Decision, is_level, is_approver, owns, refuse, lift, settle, change_approval, decided, decide,
  action_name, cancel, release_cancelled, release_balance, withdraw, change_request, skip_remaining,
  request_key,
}
use hrus.Leave.Requests.Reads.{
  Loads, IsLoaded, load-reads, refuse-reads, raise_if-reads, ensure_pending-reads, detail-reads,
}
use hrus.Leave.Ledger.{IsConsistent}
use hrus.Leave.Ledger.Moves.{held, spent, change_request-IsOff, IsConsistent-IsOff}
use hrus.Leave.Ledger.Release.{IsReleased, release_balance-IsReleased}
use hrus.Leave.Ledger.Preserved.{
  SameLedger-IsConsistent, settle-IsConsistent, IsOff-balanced, skip_remaining-IsConsistent,
}

-- The end of a service: the audit row and the detail for the response.
pub reported :
    (t : ℕ) (actor : Option ℕ) (action : String) (i : ℕ) (db : Db)
    → IsConsistent db
    → Commits IsConsistent ((record_audit t actor action i >> detail t i) db)
unfolding record_audit
reported t actor action i db c =
    Commits-map (λ s. s ≡ noted) IsConsistent (detail t i noted) (λ s e. rw e keeps)
      (Yields-Commits noted (λ _. Unit {0}) (detail t i noted) (detail-reads noted t i))
  where
    noted : Db
    noted = record db {
      audit_log =
          db.audit_log
          ++ record { tenant_id = t; actor_user_id = actor; action = action; entity_id = i } ∷ [];
    }

    keeps : IsConsistent noted
    keeps =
        SameLedger-IsConsistent db noted (record { types = refl; requests = refl; balances = refl })
          c

change_approval-IsConsistent :
    (r : LeaveRequest) (f : LeaveApproval → LeaveApproval) (db : Db)
    → IsConsistent db
    → IsConsistent (change_approval r f db)
unfolding change_approval
change_approval-IsConsistent r f db =
    SameLedger-IsConsistent db _ (record { types = refl; requests = refl; balances = refl })

-- The writes of `decide`, once its guards have passed.
settled :
    (env : Env) (actor : AccessClaims) (decision : Decision) (note : Option String)
    (r : LeaveRequest) (db : Db)
    → IsLoaded db r
    → r.status ≡ LeaveRequestStatus.pending
    → IsConsistent db
    → Commits IsConsistent (
        (settle env r decision
            >> (record_audit actor.tenant_id (some actor.user_id) (action_name decision) r.id
                >> detail actor.tenant_id r.id))
          (change_approval r (decided env actor decision note) db))
unfolding change_approval
settled env actor decision note r db found waiting c =
    Commits-bind IsConsistent IsConsistent (settle env r decision) _
      (change_approval r (decided env actor decision note) db)
      (settle-IsConsistent env r (change_approval r (decided env actor decision note) db)
        (change_approval-IsConsistent r (decided env actor decision note) db c) found waiting
        decision)
      λ _ db' c'. reported actor.tenant_id (some actor.user_id) (action_name decision) r.id db' c'

-- From consistent balances, a decision that succeeds leaves consistent balances.
pub decide-IsConsistent :
    (env : Env) (actor : AccessClaims) (request_id : ℕ) (decision : Decision) (note : Option String)
    (db : Db)
    → IsConsistent db
    → Commits IsConsistent (decide env actor request_id decision note db)
unfolding decide
decide-IsConsistent env actor request_id decision note db c =
    Commits-read IsConsistent (Loads actor.tenant_id request_id db)
      (load actor.tenant_id request_id) _ db (load-reads actor.tenant_id request_id db)
      λ r loaded.
        let approval = find (is_level r) db.leave_approvals in
        let allowed = is_hr actor || is_approver actor approval in
        Commits-read IsConsistent (λ _. allowed ≡ true)
          (refuse Code.not_current_approver actor r allowed) _ db
          (refuse-reads db Code.not_current_approver actor r allowed)
          λ _ _.
            Commits-read IsConsistent (λ _. owns actor r ≡ false)
              (raise_if (owns actor r) (forbidden Code.cannot_decide_own_request)) _ db
              (raise_if-reads db (owns actor r) (forbidden Code.cannot_decide_own_request))
              λ _ _.
                Commits-read IsConsistent (λ _. r.status ≡ LeaveRequestStatus.pending)
                  (lift (ensure_pending r.status)) _ db (ensure_pending-reads db r.status)
                  λ _ waiting.
                    Commits-read IsConsistent (λ _. not (is_some approval) ≡ false)
                      (raise_if (not (is_some approval)) not_found) _ db
                      (raise_if-reads db (not (is_some approval)) not_found)
                      λ _ _. settled env actor decision note r db loaded.found waiting c

-- What `ensure_can_cancel` lets pass.
abbrev IsCancellable : LeaveRequest → Type 0
IsCancellable r = (r.status ≡ LeaveRequestStatus.pending) ⊎ (r.status ≡ LeaveRequestStatus.approved)

ensure_can_cancel-reads :
    (r : LeaveRequest) (today : Date) (db : Db)
    → Yields
        (λ _ s. (s ≡ db) × IsCancellable r)
        (lift (ensure_can_cancel r.status r.start_date today) db)
unfolding ensure_can_cancel
ensure_can_cancel-reads r today db = ground arith

module _ (env : Env) (actor : AccessClaims) (r : LeaveRequest) (db : Db) (found : IsLoaded db r)
    (c : IsConsistent db) where
  -- The request is withdrawn once its days are given back.
  withdrawn :
      (p u : ℤ) (db' : Db)
      → pos 0 +ℤ p +ℤ (held r -ℤ pos 0) ≡ pos 0
      → pos 0 +ℤ u +ℤ (spent r -ℤ pos 0) ≡ pos 0
      → IsReleased r (pos 0 +ℤ p) (pos 0 +ℤ u) db db'
      → IsConsistent (skip_remaining r (change_request r (withdraw env.now) db'))
  withdrawn p u db' ep eu rel = skip_remaining-IsConsistent r _ (
      IsOff-balanced r _ _ _ ep eu (
        change_request-IsOff (pos 0 +ℤ p) (pos 0 +ℤ u) r (withdraw env.now) db'
          (rw rel.same.requests found) refl rel.off))

  abbrev finish : Tx Db Detail
  finish =
      modify (λ db. skip_remaining r (change_request r (withdraw env.now) db))
      >> (record_audit actor.tenant_id (some actor.user_id) "leave_request.cancel" r.id
          >> detail actor.tenant_id r.id)

  give_back_all :
      (p u : ℤ)
      → pos 0 +ℤ p +ℤ (held r -ℤ pos 0) ≡ pos 0
      → pos 0 +ℤ u +ℤ (spent r -ℤ pos 0) ≡ pos 0
      → Commits IsConsistent ((release_balance env r p u >> finish) db)
  give_back_all p u ep eu =
      Commits-bind (IsReleased r (pos 0 +ℤ p) (pos 0 +ℤ u) db) IsConsistent
        (release_balance env r p u) _ db
        (release_balance-IsReleased env r (pos 0) (pos 0) p u db
          (IsConsistent-IsOff (request_key r) db c))
        λ _ db' rel.
          reported actor.tenant_id (some actor.user_id) "leave_request.cancel" r.id _
            (withdrawn p u db' ep eu rel)

  by_status :
      (status : LeaveRequestStatus)
      → r.status ≡ status
      → IsCancellable r
      → Commits IsConsistent ((release_cancelled env r status >> finish) db)
  unfolding release_cancelled
  by_status LeaveRequestStatus.pending e _ =
      give_back_all (pos 0 -ℤ pos r.days) (pos 0) (rw e (omega int_laws)) (rw e (omega int_laws))
  by_status LeaveRequestStatus.approved e _ =
      give_back_all (pos 0) (pos 0 -ℤ pos r.days) (rw e (omega int_laws)) (rw e (omega int_laws))
  by_status LeaveRequestStatus.rejected e h = absurd (ground arith)
  by_status LeaveRequestStatus.cancelled e h = absurd (ground arith)

-- From consistent balances, a cancellation that succeeds leaves consistent balances.
pub cancel-IsConsistent :
    (env : Env) (actor : AccessClaims) (request_id : ℕ) (db : Db)
    → IsConsistent db
    → Commits IsConsistent (cancel env actor request_id db)
unfolding cancel
cancel-IsConsistent env actor request_id db c =
    Commits-read IsConsistent (Loads actor.tenant_id request_id db)
      (load actor.tenant_id request_id) _ db (load-reads actor.tenant_id request_id db)
      λ r loaded.
        let allowed = owns actor r || is_hr actor in
        Commits-read IsConsistent (λ _. allowed ≡ true)
          (refuse Code.cannot_cancel_others actor r allowed) _ db
          (refuse-reads db Code.cannot_cancel_others actor r allowed)
          λ _ _.
            Commits-read IsConsistent (λ _. IsCancellable r)
              (lift (ensure_can_cancel r.status r.start_date (env.today actor.tenant_id))) _ db
              (ensure_can_cancel-reads r (env.today actor.tenant_id) db)
              λ _ possible. by_status env actor r db loaded.found c r.status refl possible
