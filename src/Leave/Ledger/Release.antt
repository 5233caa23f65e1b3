-- ===== src/Leave/Ledger/Release.antt =====
-- `_release_balance`: what a request gives back reaches its balance.
use hrus.Base.{◌≡◌, refl, ap, Bool, true, false, some, inl, inr, arith, find, Option-cases}
use hrus.Base.Int.{ℤ, ◌+ℤ◌}
use hrus.Tx.{Commits, Yields-bind}
use hrus.Models.Leave.{LeaveRequest, LeaveBalance}
use hrus.Db.{Db, Env}
use hrus.Leave.Config.{is_leave_type, get_leave_type}
use hrus.Leave.Balances.{get_balance, change_balance, find_balance}
use hrus.Leave.Requests.Decide.{request_key, release_balance, release_required, give_back}
use hrus.Leave.Ledger.{IsOff, requires, counted}
use hrus.Leave.Ledger.Keys.{same_key_refl}
use hrus.Leave.Ledger.Moves.{
  SameRows, IsFetched, get_balance-IsFetched, fetch-IsOff, change-IsOff, IsOff-uncounted,
}

pub record IsReleased (r : LeaveRequest) (dp du : ℤ) (db db' : Db) : Type 0 where
  pub off : IsOff (request_key r) dp du db'
  pub same : SameRows db db'

module _ (env : Env) (r : LeaveRequest) (dp du p u : ℤ) (db : Db)
    (off : IsOff (request_key r) dp du db) where
  fetched_found :
      (b : LeaveBalance) (db' : Db)
      → IsFetched (request_key r) db b db'
      → find_balance (request_key r) db' ≡ some b
  fetched_found b db' f = ground (arith, f.views (request_key r), same_key_refl (request_key r))

  release_counted :
      Commits (IsReleased r (dp +ℤ p) (du +ℤ u) db) (release_required env r p u true db)
  unfolding change_balance
  release_counted =
      Yields-bind (IsFetched (request_key r) db) (λ _ s. IsReleased r (dp +ℤ p) (du +ℤ u) db s)
        (get_balance env (request_key r)) _ db (get_balance-IsFetched env (request_key r) db)
        λ b db' e f. record {
          off =
              change-IsOff (request_key r) dp du p u db' b (fetched_found b db' f) (give_back p u)
                (λ x. refl) refl refl
                (fetch-IsOff (request_key r) (request_key r) dp du db b db' off f);
          same = record {
            requests = f.same.requests;
            leave_types = f.same.leave_types;
            approvals = f.same.approvals;
            jobs = f.same.jobs;
          };
        }

  uncounted :
      requires db (request_key r) ≡ false
      → Commits (IsReleased r (dp +ℤ p) (du +ℤ u) db) (release_required env r p u false db)
  uncounted n = record {
    off = IsOff-uncounted (request_key r) dp du (dp +ℤ p) (du +ℤ u) db n off;
    same = record { requests = refl; leave_types = refl; approvals = refl; jobs = refl };
  }

  by_type :
      (c : Bool)
      → requires db (request_key r) ≡ c
      → Commits (IsReleased r (dp +ℤ p) (du +ℤ u) db) (release_required env r p u c db)
  by_type true e = release_counted
  by_type false e = uncounted e

  -- The ledger moves by the days given back, or nothing counts for this leave type.
  pub release_balance-IsReleased :
      Commits (IsReleased r (dp +ℤ p) (du +ℤ u) db) (release_balance env r p u db)
  unfolding release_balance get_leave_type requires
  release_balance-IsReleased =
      elim (Option-cases (find (is_leave_type r.tenant_id r.leave_type_id) db.leave_types)) [
        | inl e ↦ rw e tt
        | inr (t, e) ↦ rw e (by_type t.requires_balance (ap counted e))
      ]
