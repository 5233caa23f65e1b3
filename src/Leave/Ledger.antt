-- ===== src/Leave/Ledger.antt =====
-- The balances against the requests: what the stored days pending and used have to be.
pub mod Keys
pub mod Moves
pub mod Release
pub mod Preserved
pub mod Services
pub mod Allowed
pub mod Evaluated
pub mod Submitted
pub mod Adjusted
use hrus.Base.{ℕ, ◌≡◌, Bool, true, false, ◌&&◌, Option, none, some, if◌then◌else◌, find, sum_by}
use hrus.Base.Int.{ℤ, pos, ◌+ℤ◌}
use hrus.Models.Leave.{LeaveType, LeaveBalance, LeaveRequest, is_pending, is_approved}
use hrus.Db.{Db}
use hrus.Leave.Config.{is_leave_type}
use hrus.Leave.Balances.{Key, same_key, find_balance}
use hrus.Leave.Requests.Decide.{request_key}

-- The days that a request holds of the balance `k` while it is pending, and once it is approved.
abbrev pub pending_weight : Key → LeaveRequest → ℕ
pending_weight k r = if same_key k (request_key r) && is_pending r.status then r.days else 0

abbrev pub used_weight : Key → LeaveRequest → ℕ
used_weight k r = if same_key k (request_key r) && is_approved r.status then r.days else 0

unfoldable pub pending_days : Key → Db → ℕ
pending_days k db = sum_by (pending_weight k) db.leave_requests

unfoldable pub used_days : Key → Db → ℕ
used_days k db = sum_by (used_weight k) db.leave_requests

abbrev pub counted : Option LeaveType → Bool
counted none = false
counted (some t) = t.requires_balance

-- The leave type of the key requires a balance.
unfoldable pub requires : Db → Key → Bool
requires db k = counted (find (is_leave_type k.tenant_id k.leave_type_id) db.leave_types)

abbrev pub Tracks : Option LeaveBalance → ℤ → ℤ → Type 0
Tracks none p u = (p ≡ pos 0) × (u ≡ pos 0)
Tracks (some b) p u = (b.pending ≡ p) × (b.used ≡ u)

-- For every employee, year and leave type with a balance, the stored days pending are those of the
-- pending requests and the stored days used those of the approved ones; where no balance is stored
-- yet there are no such days.
pub record IsConsistent (db : Db) : Type 0 where
  pub at_key :
      (k : Key)
      → requires db k ≡ true
      → Tracks (find_balance k db) (pos (pending_days k db)) (pos (used_days k db))

abbrev pub offset : Key → Key → ℤ → ℤ
offset k j d = if same_key k j then d else pos 0

-- The same between two writes of a transaction, when the balance `j` is off by known days.
pub record IsOff (j : Key) (dp du : ℤ) (db : Db) : Type 0 where
  pub at_key :
      (k : Key)
      → requires db k ≡ true
      → Tracks
          (find_balance k db)
          (pos (pending_days k db) +ℤ offset k j dp)
          (pos (used_days k db) +ℤ offset k j du)
