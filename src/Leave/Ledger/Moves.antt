-- ===== src/Leave/Ledger/Moves.antt =====
-- What fetching a balance, changing it, and changing a request do to the ledger.
use hrus.Base.{
  ℕ, ◌+◌, ◌≡◌, refl, sym, ap, ◌⊎◌, inl, inr, false, none, some, arith, if◌then◌else◌, find,
  find-holds, sum_by-update_first, Option-cases,
}
use hrus.Base.Int.{ℤ, pos, ◌+ℤ◌, ◌-ℤ◌, int_laws, +ℤ_assoc, +ℤ_zero}
use hrus.Tx.{Yields}
use hrus.Models.Leave.{LeaveBalance, LeaveRequest, is_pending, is_approved}
use hrus.Db.{Db, Env, new_id, record_audit}
use hrus.Leave.Balances.{
  Key, same_key, balance_key, is_balance, find_balance, add_balance, change_balance, get_balance,
  create_balance, is_employee,
}
use hrus.Leave.Requests.Lookup.{is_request}
use hrus.Leave.Requests.Decide.{request_key, change_request}
use hrus.Leave.Ledger.{
  IsConsistent, IsOff, Tracks, offset, pending_weight, used_weight, pending_days, used_days,
  requires,
}
use hrus.Leave.Ledger.Keys.{same_key-eq, find_balance-change, find_balance-add}

-- What `get_balance` leaves alone.
pub record SameRows (db db' : Db) : Type 0 where
  pub requests : db'.leave_requests ≡ db.leave_requests
  pub leave_types : db'.leave_types ≡ db.leave_types
  pub approvals : db'.leave_approvals ≡ db.leave_approvals
  pub jobs : db'.employee_jobs ≡ db.employee_jobs

-- A balance that a transaction has at hand: the row of its key; it was there, or was made without
-- days pending or used.
pub record IsFetched (k : Key) (db : Db) (b : LeaveBalance) (db' : Db) : Type 0 where
  pub keyed : balance_key b ≡ k
  pub views : (j : Key) → find_balance j db' ≡ (if same_key j k then some b else find_balance j db)
  pub origin :
      (find_balance k db ≡ some b)
      ⊎ ((find_balance k db ≡ none) × (b.pending ≡ pos 0) × (b.used ≡ pos 0))
  pub same : SameRows db db'

module _ (env : Env) (k : Key) (db : Db) where
  create_balance-IsFetched :
      find_balance k db ≡ none → Yields (IsFetched k db) (create_balance env k db)
  unfolding create_balance new_id record_audit find_balance add_balance
  create_balance-IsFetched h =
      elim (Option-cases (find (is_employee k.tenant_id k.employee_id) db.employees)) [
        | inl e ↦ rw e tt
        | inr (x, e) ↦ rw e (record {
          keyed = refl;
          views = λ j. find_balance-add j _ db h;
          origin = inr (h, refl, refl);
          same = record { requests = refl; leave_types = refl; approvals = refl; jobs = refl };
        })
      ]

  -- The balance that was there.
  found-IsFetched : (b : LeaveBalance) → find_balance k db ≡ some b → IsFetched k db b db
  unfolding find_balance
  found-IsFetched b h = record {
    keyed = sym (same_key-eq k (balance_key b) (find-holds (is_balance k) db.leave_balances b h));
    views = λ j. ground (arith, same_key-eq j k);
    origin = inl h;
    same = record { requests = refl; leave_types = refl; approvals = refl; jobs = refl };
  }

  pub get_balance-IsFetched : Yields (IsFetched k db) (get_balance env k db)
  unfolding get_balance
  get_balance-IsFetched = elim (Option-cases (find_balance k db)) [
    | inl e ↦ rw e (create_balance-IsFetched e)
    | inr (b, e) ↦ rw e (found-IsFetched b e)
  ]

-- `requires`, `pending_days` and `used_days` read the leave types and the requests alone.
module _ (k : Key) (db db' : Db) (same : SameRows db db') where
  requires_same : requires db' k ≡ requires db k
  unfolding requires
  requires_same = cc same.leave_types

  pending_days_same : pending_days k db' ≡ pending_days k db
  unfolding pending_days
  pending_days_same = cc same.requests

  used_days_same : used_days k db' ≡ used_days k db
  unfolding used_days
  used_days_same = cc same.requests

module _ (j k : Key) (dp du : ℤ) (db : Db) (b : LeaveBalance) (db' : Db) (off : IsOff j dp du db)
    (fetched : IsFetched k db b db') where
  -- Fetching a balance keeps the ledger as far off as it was.
  pub fetch-IsOff : IsOff j dp du db'
  fetch-IsOff = record {
    at_key = λ l h. ground (
      arith,
      fetched.views l,
      requires_same l db db' fetched.same,
      pending_days_same l db db' fetched.same,
      used_days_same l db db' fetched.same,
      off.at_key l,
      same_key-eq l k,
    );
  }

-- A change of the balance `j` by known days shifts what the ledger is off by.
module _ (j : Key) (dp du p u : ℤ) (db : Db) (b : LeaveBalance) (found : find_balance j db ≡ some b)
    (f : LeaveBalance → LeaveBalance)
    (keep : (x : LeaveBalance) → balance_key (f x) ≡ balance_key x)
    (ep : (f b).pending ≡ b.pending +ℤ p) (eu : (f b).used ≡ b.used +ℤ u) where
  Tracks-change :
      (l : Key) (P U : ℤ)
      → Tracks (find_balance l db) (P +ℤ offset l j dp) (U +ℤ offset l j du)
      → Tracks
          (find_balance l (change_balance j f db))
          (P +ℤ offset l j (dp +ℤ p))
          (U +ℤ offset l j (du +ℤ u))
  Tracks-change l P U t =
      rw (find_balance-change l j f keep db)
        (ground (arith, same_key-eq l j, +ℤ_assoc P dp p, +ℤ_assoc U du u))

  pub change-IsOff : IsOff j dp du db → IsOff j (dp +ℤ p) (du +ℤ u) (change_balance j f db)
  unfolding requires pending_days used_days change_balance
  change-IsOff off = record {
    at_key =
        λ l h. Tracks-change l (pos (pending_days l db)) (pos (used_days l db)) (off.at_key l h);
  }

pub IsConsistent-IsOff : (j : Key) (db : Db) → IsConsistent db → IsOff j (pos 0) (pos 0) db
IsConsistent-IsOff j db c = record {
  at_key = λ l h.
      ground
        (arith, c.at_key l h, +ℤ_zero (pos (pending_days l db)), +ℤ_zero (pos (used_days l db)));
}

pub IsOff-IsConsistent : (j : Key) (db : Db) → IsOff j (pos 0) (pos 0) db → IsConsistent db
IsOff-IsConsistent j db off = record {
  at_key = λ l h.
      ground
        (arith, off.at_key l h, +ℤ_zero (pos (pending_days l db)), +ℤ_zero (pos (used_days l db)));
}

-- Where the leave type of `j` needs no balance, nothing is off.
pub IsOff-uncounted :
    (j : Key) (dp du dp' du' : ℤ) (db : Db)
    → requires db j ≡ false
    → IsOff j dp du db
    → IsOff j dp' du' db
IsOff-uncounted j dp du dp' du' db n off = record {
  at_key = λ l h. ground (arith, off.at_key l h, same_key-eq l j);
}

-- The days that a status holds, pending and used.
abbrev pub held : LeaveRequest → ℤ
held r = pos (if is_pending r.status then r.days else 0)

abbrev pub spent : LeaveRequest → ℤ
spent r = pos (if is_approved r.status then r.days else 0)

shift_back :
    (new old a b : ℕ) (d : ℤ)
    → new + a ≡ old + b
    → pos new +ℤ (d +ℤ (pos a -ℤ pos b)) ≡ pos old +ℤ d
shift_back new old a b d h = omega int_laws

-- A change of the request that was loaded, of its status only, sets the ledger off by the days
-- that it held before less those that it holds now.
module _ (dp du : ℤ) (r : LeaveRequest) (f : LeaveRequest → LeaveRequest) (db : Db)
    (found : find (is_request r.tenant_id r.id) db.leave_requests ≡ some r)
    (same : request_key (f r) ≡ request_key r) where
  key_same : (l : Key) → same_key l (request_key (f r)) ≡ same_key l (request_key r)
  key_same l = ap (same_key l) same

  pending_shift :
      (l : Key)
      → pos (pending_days l (change_request r f db))
          +ℤ offset l (request_key r) (dp +ℤ (held r -ℤ held (f r)))
        ≡ pos (pending_days l db) +ℤ offset l (request_key r) dp
  unfolding pending_days change_request
  pending_shift l = ground (
    arith,
    key_same l,
    sum_by-update_first (pending_weight l) (is_request r.tenant_id r.id) f db.leave_requests r
        found,
    shift_back (pending_days l (change_request r f db)) (pending_days l db)
        (if is_pending r.status then r.days else 0)
        (if is_pending (f r).status then (f r).days else 0) dp,
  )

  used_shift :
      (l : Key)
      → pos (used_days l (change_request r f db))
          +ℤ offset l (request_key r) (du +ℤ (spent r -ℤ spent (f r)))
        ≡ pos (used_days l db) +ℤ offset l (request_key r) du
  unfolding used_days change_request
  used_shift l = ground (
    arith,
    key_same l,
    sum_by-update_first (used_weight l) (is_request r.tenant_id r.id) f db.leave_requests r found,
    shift_back (used_days l (change_request r f db)) (used_days l db)
        (if is_approved r.status then r.days else 0)
        (if is_approved (f r).status then (f r).days else 0) du,
  )

  pub change_request-IsOff :
      IsOff (request_key r) dp du db
      → IsOff
          (request_key r)
          (dp +ℤ (held r -ℤ held (f r)))
          (du +ℤ (spent r -ℤ spent (f r)))
          (change_request r f db)
  unfolding requires find_balance change_request
  change_request-IsOff off = record {
    at_key = λ l h. rw (pending_shift l, used_shift l) (off.at_key l h);
  }
