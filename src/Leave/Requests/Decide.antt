-- ===== src/Leave/Requests/Decide.antt =====
-- `decide` and `cancel`: the approval levels, and the days that a request gives back.
use hrus.Base.{
  ℕ, suc, Bool, true, false, not, ◌&&◌, ◌||◌, Option, none, some, String, ◌==◌, ltb, if◌then◌else◌,
  holds_id, is_some, find, update_first, update_all,
}
use hrus.Base.Int.{ℤ, pos, ◌+ℤ◌, ◌-ℤ◌}
use hrus.Errors.{Code, Result, ok, err, not_found, forbidden}
use hrus.Tx.{Tx, pure, raise, gets, modify, raise_if, ◌>>=◌, ◌>>◌}
use hrus.Models.Auth.{AccessClaims, is_hr}
use hrus.Models.Leave.{
  LeaveBalance, LeaveRequest, LeaveRequestStatus, LeaveApproval, ApprovalStatus, awaits,
}
use hrus.Rules.Leave.{ensure_can_cancel, ensure_pending}
use hrus.Db.{Db, Env, record_audit}
use hrus.Leave.Config.{get_leave_type}
use hrus.Leave.Balances.{Key, get_balance, change_balance}
use hrus.Leave.Requests.Lookup.{Detail, is_request, is_approval_of, load, can_view, detail}
use hrus.Leave.Requests.Submit.{stripped}

pub data Decision : Type 0 where
  approve reject : Decision

-- The balance that a request counts against.
abbrev pub request_key : LeaveRequest → Key
request_key r = record {
  tenant_id = r.tenant_id;
  employee_id = r.employee_id;
  leave_type_id = r.leave_type_id;
  year = r.start_date.year;
}

abbrev pub give_back : ℤ → ℤ → LeaveBalance → LeaveBalance
give_back pending used b = record b { pending = b.pending +ℤ pending; used = b.used +ℤ used }

abbrev pub release_required : Env → LeaveRequest → ℤ → ℤ → Bool → Tx Db (Unit {0})
release_required env r pending used false = pure tt
release_required env r pending used true = do
  get_balance env (request_key r)
  modify (change_balance (request_key r) (give_back pending used))

-- `_release_balance`
unfoldable pub release_balance : Env → LeaveRequest → ℤ → ℤ → Tx Db (Unit {0})
release_balance env r pending used = do
  leave_type ← get_leave_type r.tenant_id r.leave_type_id
  release_required env r pending used leave_type.requires_balance

abbrev pub skip : LeaveApproval → LeaveApproval
skip a = record a { status = ApprovalStatus.skipped }

-- `_skip_remaining`
unfoldable pub skip_remaining : LeaveRequest → Db → Db
skip_remaining r db = record db {
  leave_approvals = update_all (λ a. is_approval_of r a && awaits a.status) skip db.leave_approvals;
}

-- A change of the request that was loaded.
unfoldable pub change_request : LeaveRequest → (LeaveRequest → LeaveRequest) → Db → Db
change_request r f db = record db {
  leave_requests = update_first (is_request r.tenant_id r.id) f db.leave_requests;
}

abbrev pub close : LeaveRequestStatus → ℕ → LeaveRequest → LeaveRequest
close status now r = record r { status = status; decided_at = some now }

abbrev pub raise_level : LeaveRequest → LeaveRequest
raise_level r = record r { current_level = suc r.current_level }

abbrev pub withdraw : ℕ → LeaveRequest → LeaveRequest
withdraw now r = record r { status = LeaveRequestStatus.cancelled; cancelled_at = some now }

-- The effect of a decision on the request and its balance.
unfoldable pub settle : Env → LeaveRequest → Decision → Tx Db (Unit {0})
settle env r reject = do
  modify (change_request r (close LeaveRequestStatus.rejected env.now))
  release_balance env r (pos 0 -ℤ pos r.days) (pos 0)
  modify (skip_remaining r)
settle env r approve =
    if ltb r.current_level r.approval_levels then modify (change_request r raise_level) else do
      modify (change_request r (close LeaveRequestStatus.approved env.now))
      release_balance env r (pos 0 -ℤ pos r.days) (pos r.days)

abbrev approval_status : Decision → ApprovalStatus
approval_status approve = ApprovalStatus.approved
approval_status reject = ApprovalStatus.rejected

unfoldable pub is_level : LeaveRequest → LeaveApproval → Bool
is_level r a = is_approval_of r a && a.level == r.current_level

unfoldable pub decided :
    Env → AccessClaims → Decision → Option String → LeaveApproval → LeaveApproval
decided env actor decision note a = record a {
  status = approval_status decision;
  note = stripped env note;
  decided_by_user_id = some actor.user_id;
  decided_at = some env.now;
}

unfoldable pub change_approval : LeaveRequest → (LeaveApproval → LeaveApproval) → Db → Db
change_approval r f db = record db {
  leave_approvals = update_first (is_level r) f db.leave_approvals;
}

abbrev same_id : Option ℕ → Option ℕ → Bool
same_id none x = false
same_id (some k) x = holds_id x k

-- `is_approver`: the approver of the current level is the actor.
unfoldable pub is_approver : AccessClaims → Option LeaveApproval → Bool
is_approver actor none = false
is_approver actor (some a) = same_id a.approver_employee_id actor.employee_id

unfoldable pub owns : AccessClaims → LeaveRequest → Bool
owns actor r = holds_id actor.employee_id r.employee_id

-- The error for an actor who may not act: 403 if the request is visible, 404 otherwise.
unfoldable pub refuse : Code → AccessClaims → LeaveRequest → Bool → Tx Db (Unit {0})
refuse code actor r true = pure tt
refuse code actor r false = do
  seen ← gets (can_view actor r)
  raise_if seen (forbidden code)
  raise not_found

abbrev pub lift : Result (Unit {0}) → Tx Db (Unit {0})
lift (ok u) = pure u
lift (err e) = raise e

abbrev pub action_name : Decision → String
action_name approve = "leave_request.approved"
action_name reject = "leave_request.rejected"

unfoldable pub decide : Env → AccessClaims → ℕ → Decision → Option String → Tx Db Detail
decide env actor request_id decision note = do
  r ← load actor.tenant_id request_id
  approval ← gets (λ db. find (is_level r) db.leave_approvals)
  refuse Code.not_current_approver actor r (is_hr actor || is_approver actor approval)
  raise_if (owns actor r) (forbidden Code.cannot_decide_own_request)
  lift (ensure_pending r.status)
  raise_if (not (is_some approval)) not_found
  modify (change_approval r (decided env actor decision note))
  settle env r decision
  record_audit actor.tenant_id (some actor.user_id) (action_name decision) r.id
  detail actor.tenant_id r.id

-- What a cancelled request gives back: its pending days, or the days used.
unfoldable pub release_cancelled : Env → LeaveRequest → LeaveRequestStatus → Tx Db (Unit {0})
release_cancelled env r LeaveRequestStatus.pending =
    release_balance env r (pos 0 -ℤ pos r.days) (pos 0)
release_cancelled env r _ = release_balance env r (pos 0) (pos 0 -ℤ pos r.days)

unfoldable pub cancel : Env → AccessClaims → ℕ → Tx Db Detail
cancel env actor request_id = do
  r ← load actor.tenant_id request_id
  refuse Code.cannot_cancel_others actor r (owns actor r || is_hr actor)
  lift (ensure_can_cancel r.status r.start_date (env.today actor.tenant_id))
  release_cancelled env r r.status
  modify (λ db. skip_remaining r (change_request r (withdraw env.now) db))
  record_audit actor.tenant_id (some actor.user_id) "leave_request.cancel" r.id
  detail actor.tenant_id r.id
