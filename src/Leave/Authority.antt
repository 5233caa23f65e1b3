-- ===== src/Leave/Authority.antt =====
-- backend/app/services/leave_requests.py: who may decide and cancel a request, and when.
use hrus.Base.{ℕ, ◌≡◌, ◌⊎◌, true, false, ◌||◌, Option, some, String, arith, find}
use hrus.Calendar.{Date, before}
use hrus.Errors.{Code, Result, ok, err, forbidden}
use hrus.Tx.{Yields, Yields-read, raise_if}
use hrus.Models.Auth.{AccessClaims, is_hr}
use hrus.Models.Leave.{LeaveRequest, LeaveRequestStatus}
use hrus.Rules.Leave.{ensure_can_cancel, ensure_pending}
use hrus.Db.{Db, Env}
use hrus.Leave.Requests.Lookup.{is_request, load, Detail}
use hrus.Leave.Requests.Decide.{Decision, decide, cancel, refuse, lift, is_level, is_approver, owns}
use hrus.Leave.Requests.Reads.{
  Loads, load-reads, refuse-reads, raise_if-reads, ensure_pending-reads,
}

-- The request that is decided, and why the actor may.
pub record MayDecide (actor : AccessClaims) (request_id : ℕ) (db : Db) : Type 0 where
  pub request : LeaveRequest
  pub found : find (is_request actor.tenant_id request_id) db.leave_requests ≡ some request
  pub allowed :
      (is_hr actor || is_approver actor (find (is_level request) db.leave_approvals)) ≡ true
  pub other : owns actor request ≡ false
  pub pending : request.status ≡ LeaveRequestStatus.pending

-- A request may be cancelled while it is pending, or approved and not begun.
abbrev pub IsOpen : LeaveRequest → Date → Type 0
IsOpen r today =
    (r.status ≡ LeaveRequestStatus.pending)
    ⊎ ((r.status ≡ LeaveRequestStatus.approved) × (before today r.start_date ≡ true))

pub record MayCancel (actor : AccessClaims) (request_id : ℕ) (today : Date) (db : Db) : Type 0 where
  pub request : LeaveRequest
  pub found : find (is_request actor.tenant_id request_id) db.leave_requests ≡ some request
  pub allowed : (owns actor request || is_hr actor) ≡ true
  pub open_at : IsOpen request today

always : {S A : Type 0} (P : Type 0) (r : Result (A × S)) → P → Yields (λ _ _. P) r
always P (ok (a, s)) p = p
always P (err e) p = tt

can_cancel-reads :
    (r : LeaveRequest) (today : Date) (db : Db)
    → Yields
        (λ _ s. (s ≡ db) × IsOpen r today)
        (lift (ensure_can_cancel r.status r.start_date today) db)
unfolding ensure_can_cancel
can_cancel-reads r today db = ground arith

-- A decision succeeds only on a request of the actor's tenant that is pending, that is not the
-- actor's own, and of which the actor is the approver of the current level or an HR administrator.
pub decide-MayDecide :
    (env : Env) (actor : AccessClaims) (request_id : ℕ) (decision : Decision)
    (remark : Option String) (db : Db)
    → Yields (λ _ _. MayDecide actor request_id db) (decide env actor request_id decision remark db)
unfolding decide
decide-MayDecide env actor request_id decision remark db =
    Yields-read P (Loads actor.tenant_id request_id db) (load actor.tenant_id request_id) _ db
      (load-reads actor.tenant_id request_id db)
      λ r loaded.
        let approval = find (is_level r) db.leave_approvals in
        let allowed = is_hr actor || is_approver actor approval in
        Yields-read P _ (refuse Code.not_current_approver actor r allowed) _ db
          (refuse-reads db Code.not_current_approver actor r allowed)
          λ _ may.
            Yields-read P _ (raise_if (owns actor r) (forbidden Code.cannot_decide_own_request)) _
              db (raise_if-reads db (owns actor r) (forbidden Code.cannot_decide_own_request))
              λ _ other.
                Yields-read P _ (lift (ensure_pending r.status)) _ db
                  (ensure_pending-reads db r.status)
                  λ _ waiting. always (MayDecide actor request_id db) _ (record {
                    request = r;
                    found = loaded.by_id;
                    allowed = may;
                    other = other;
                    pending = waiting;
                  })
  where
    P : Detail → Db → Type 0
    P _ _ = MayDecide actor request_id db

-- A cancellation succeeds only on a request of the actor's tenant that the actor owns or cancels as
-- an HR administrator, and that is pending, or approved with a start after today.
pub cancel-MayCancel :
    (env : Env) (actor : AccessClaims) (request_id : ℕ) (db : Db)
    → Yields
        (λ _ _. MayCancel actor request_id (env.today actor.tenant_id) db)
        (cancel env actor request_id db)
unfolding cancel
cancel-MayCancel env actor request_id db =
    Yields-read P (Loads actor.tenant_id request_id db) (load actor.tenant_id request_id) _ db
      (load-reads actor.tenant_id request_id db)
      λ r loaded.
        let allowed = owns actor r || is_hr actor in
        Yields-read P _ (refuse Code.cannot_cancel_others actor r allowed) _ db
          (refuse-reads db Code.cannot_cancel_others actor r allowed)
          λ _ may.
            Yields-read P _
              (lift (ensure_can_cancel r.status r.start_date (env.today actor.tenant_id))) _ db
              (can_cancel-reads r (env.today actor.tenant_id) db)
              λ _ possible.
                always (MayCancel actor request_id (env.today actor.tenant_id) db) _
                  (record { request = r; found = loaded.by_id; allowed = may; open_at = possible })
  where
    P : Detail → Db → Type 0
    P _ _ = MayCancel actor request_id (env.today actor.tenant_id) db
