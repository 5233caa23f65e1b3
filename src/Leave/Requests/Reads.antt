-- ===== src/Leave/Requests/Reads.antt =====
-- The steps of `decide` and `cancel` that only read, and what they establish.
use hrus.Base.{
  ℕ, ◌≡◌, refl, Bool, true, false, some, inl, inr, arith, find, find-holds, Option-cases,
  Bool-cases,
}
use hrus.Errors.{Code, AppError}
use hrus.Tx.{Yields, raise_if}
use hrus.Models.Auth.{AccessClaims}
use hrus.Models.Leave.{LeaveRequest, LeaveRequestStatus}
use hrus.Rules.Leave.{ensure_pending}
use hrus.Db.{Db}
use hrus.Leave.Requests.Lookup.{is_request, load, can_view, detail}
use hrus.Leave.Requests.Decide.{refuse, lift}

-- The row stands in the table under its own id.
abbrev pub IsLoaded : Db → LeaveRequest → Type 0
IsLoaded db r = find (is_request r.tenant_id r.id) db.leave_requests ≡ some r

is_request_ids :
    (t i : ℕ) (r : LeaveRequest) → is_request t i r ≡ true → (r.tenant_id ≡ t) × (r.id ≡ i)
unfolding is_request
is_request_ids t i r h = ground arith

found-IsLoaded :
    (t i : ℕ) (db : Db) (r : LeaveRequest)
    → find (is_request t i) db.leave_requests ≡ some r
    → IsLoaded db r
found-IsLoaded t i db r h =
    let ids = is_request_ids t i r (find-holds (is_request t i) db.leave_requests r h) in
    simp (ids.0, ids.1) h

-- What `_load` establishes of the row that it returns.
pub record Loads (t : ℕ) (i : ℕ) (db : Db) (r : LeaveRequest) : Type 0 where
  pub tenant : r.tenant_id ≡ t
  pub by_id : find (is_request t i) db.leave_requests ≡ some r
  pub found : IsLoaded db r

pub load-reads : (t i : ℕ) (db : Db) → Yields (λ r s. (s ≡ db) × Loads t i db r) (load t i db)
unfolding load
load-reads t i db = elim (Option-cases (find (is_request t i) db.leave_requests)) [
  | inl e ↦ rw e tt
  | inr (r, e) ↦ rw e (
    refl,
    record {
      tenant = (is_request_ids t i r (find-holds (is_request t i) db.leave_requests r e)).0;
      by_id = e;
      found = found-IsLoaded t i db r e;
    },
  )
]

module _ (db : Db) where
  pub refuse-reads :
      (code : Code) (actor : AccessClaims) (r : LeaveRequest) (allowed : Bool)
      → Yields (λ _ s. (s ≡ db) × (allowed ≡ true)) (refuse code actor r allowed db)
  unfolding refuse
  refuse-reads code actor r true = (refl, refl)
  refuse-reads code actor r false = elim (Bool-cases (can_view actor r db)) [
    | inl e ↦ rw e tt
    | inr e ↦ rw e tt
  ]

  pub raise_if-reads :
      (b : Bool) (e : AppError) → Yields (λ _ s. (s ≡ db) × (b ≡ false)) (raise_if b e db)
  raise_if-reads true e = tt
  raise_if-reads false e = (refl, refl)

  pub ensure_pending-reads :
      (status : LeaveRequestStatus)
      → Yields
          (λ _ s. (s ≡ db) × (status ≡ LeaveRequestStatus.pending))
          (lift (ensure_pending status) db)
  unfolding ensure_pending
  ensure_pending-reads LeaveRequestStatus.pending = (refl, refl)
  ensure_pending-reads _ = tt

  pub detail-reads : (t i : ℕ) → Yields (λ _ s. (s ≡ db) × Unit {0}) (detail t i db)
  unfolding detail
  detail-reads t i = ground arith
