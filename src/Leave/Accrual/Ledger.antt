-- ===== src/Leave/Accrual/Ledger.antt =====
-- Accrual keeps the days pending and used of every balance.
use hrus.Base.{
  ℕ, suc, ◌≡◌, refl, sym, ◌∙◌, Option, none, some, List, [], ◌∷◌, String, arith, filter, inr,
}
use hrus.Base.Int.{ℤ, pos, ◌+ℤ◌, +ℤ_zero}
use hrus.Calendar.{Date}
use hrus.Models.CoreHr.{Employee, EmployeeJob}
use hrus.Models.Leave.{LeaveType, LeavePolicy, LeaveBalance}
use hrus.Db.{Db, Env}
use hrus.Leave.Balances.{
  Key, balance_key, find_balance, change_balance, add_balance, new_balance, annual_days,
}
use hrus.Leave.Ledger.{IsConsistent}
use hrus.Leave.Ledger.Keys.{find_balance-add}
use hrus.Leave.Ledger.Moves.{
  IsFetched, fetch-IsOff, change-IsOff, IsConsistent-IsOff, IsOff-IsConsistent,
}
use hrus.Leave.Ledger.Preserved.{SameLedger-IsConsistent}
use hrus.Leave.Accrual.{
  Pass, accrue_balance, visit, visit_found, visit_pair, visit_types, visit_employees,
  chunk_employees, is_accruing, audited, of_tenant, accrue_types, accrue,
}
use hrus.Leave.Accrual.Settled.{accrue_balance-key}

-- A change of a balance that leaves the days pending and used.
pub change-IsConsistent :
    (k : Key) (f : LeaveBalance → LeaveBalance) (b : LeaveBalance) (db : Db)
    → find_balance k db ≡ some b
    → ((x : LeaveBalance) → balance_key (f x) ≡ balance_key x)
    → (f b).pending ≡ b.pending
    → (f b).used ≡ b.used
    → IsConsistent db
    → IsConsistent (change_balance k f db)
unfolding ◌+ℤ◌
change-IsConsistent k f b db found keep p u c = IsOff-IsConsistent k (change_balance k f db) (
    change-IsOff k (pos 0) (pos 0) (pos 0) (pos 0) db b found f keep (p ∙ sym (+ℤ_zero b.pending))
      (u ∙ sym (+ℤ_zero b.used)) (IsConsistent-IsOff k db c))

-- A new row without days, where there was none.
add-IsConsistent :
    (b : LeaveBalance) (n : ℕ) (db : Db)
    → find_balance (balance_key b) db ≡ none
    → b.pending ≡ pos 0
    → b.used ≡ pos 0
    → IsConsistent db
    → IsConsistent (record (add_balance b db) { next_id = n })
unfolding add_balance find_balance
add-IsConsistent b n db h p u c =
    let k = balance_key b in
    let fetched : IsFetched k db b (record (add_balance b db) { next_id = n }) = record {
      keyed = refl;
      views = λ j. find_balance-add j b db h;
      origin = inr (h, p, u);
      same = record { requests = refl; leave_types = refl; approvals = refl; jobs = refl };
    } in
    IsOff-IsConsistent k _
      (fetch-IsOff k k (pos 0) (pos 0) db b _ (IsConsistent-IsOff k db c) fetched)

module _ (now year : ℕ) (k : Key) (base : Option LeavePolicy) (target : ℤ)
    (last_year : Option LeaveBalance) where
  same_pending :
      (b : LeaveBalance) → (accrue_balance now year base target last_year b).pending ≡ b.pending
  unfolding accrue_balance
  same_pending b = ground arith

  same_used : (b : LeaveBalance) → (accrue_balance now year base target last_year b).used ≡ b.used
  unfolding accrue_balance
  same_used b = ground arith

  visit-IsConsistent :
      (s : Pass) → IsConsistent s.db → IsConsistent (visit now year k base target last_year s).db
  unfolding visit
  visit-IsConsistent s c = by_balance (find_balance k s.db) refl
    where
      by_balance :
          (o : Option LeaveBalance)
          → find_balance k s.db ≡ o
          → IsConsistent (visit_found now year k base target last_year o s).db
      by_balance none h =
          let b = new_balance s.db.next_id k (annual_days base) in
          add-IsConsistent (accrue_balance now year base target last_year b) (suc s.db.next_id) s.db
            (rw (accrue_balance-key now year base target last_year b) h) (same_pending b)
            (same_used b) c
      by_balance (some b) h =
          change-IsConsistent k (accrue_balance now year base target last_year) b s.db h
            (λ x. accrue_balance-key now year base target last_year x) (same_pending b)
            (same_used b) c

module _ (upper : String → String) (now tenant_id : ℕ) (as_of : Date) (jobs : List EmployeeJob)
    (policies : List LeavePolicy) (before : Db) where
  types-IsConsistent :
      (e : Employee) (ts : List LeaveType) (s : Pass)
      → IsConsistent s.db
      → IsConsistent (visit_types upper now tenant_id as_of jobs policies before e ts s).db
  unfolding visit_types
  types-IsConsistent e [] s c = c
  types-IsConsistent e (t ∷ ts) s c =
      types-IsConsistent e ts (visit_pair upper now tenant_id as_of jobs policies before e t s)
        (visit-IsConsistent now as_of.year _ _ _ _ s c)

  employees-IsConsistent :
      (es : List Employee) (ts : List LeaveType) (s : Pass)
      → IsConsistent s.db
      → IsConsistent (visit_employees upper now tenant_id as_of jobs policies before es ts s).db
  unfolding visit_employees
  employees-IsConsistent [] ts s c = c
  employees-IsConsistent (e ∷ es) ts s c =
      employees-IsConsistent es ts
        (visit_types upper now tenant_id as_of jobs policies before e ts s)
        (types-IsConsistent e ts s c)

module _ (by_code : List LeaveType → List LeaveType) (env : Env) (tenant_id first_id last_id : ℕ)
    (as_of : Date) (actor : Option ℕ) where
  logged :
      (s : Pass)
      → IsConsistent s.db
      → IsConsistent (audited tenant_id actor "leave_balance.accrual" s).0
  unfolding audited
  logged s c =
      SameLedger-IsConsistent s.db _ (record { types = refl; requests = refl; balances = refl }) c

  -- From consistent balances, the accrual of a chunk leaves consistent balances.
  pub accrue-IsConsistent :
      (db : Db)
      → IsConsistent db
      → IsConsistent (accrue by_code env tenant_id first_id last_id as_of actor db).0
  unfolding accrue
  accrue-IsConsistent db c = by_types (by_code (filter (is_accruing tenant_id) db.leave_types))
    where
      by_types :
          (ts : List LeaveType)
          → IsConsistent (accrue_types by_code env tenant_id first_id last_id as_of actor ts db).0
      by_types [] = c
      by_types (t ∷ ts) = logged _ (
          employees-IsConsistent env.upper env.now tenant_id as_of db.employee_jobs
            (of_tenant tenant_id db.leave_policies) db
            (chunk_employees db.employees db.employee_jobs tenant_id first_id last_id as_of)
            (t ∷ ts) (record { db = db; changed = []; counts = [] }) c)
