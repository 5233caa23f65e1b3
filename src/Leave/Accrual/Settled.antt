-- ===== src/Leave/Accrual/Settled.antt =====
-- A balance that an accrual has settled: visiting it again changes nothing.
use hrus.Base.{
  ℕ, ◌≡◌, refl, ap, Bool, true, false, Option, none, some, List, [], ◌∷◌, arith, if◌then◌else◌,
  is_some, find, update_first, inl, inr, Bool-cases,
}
use hrus.Base.Int.{ℤ, ltb_ℤ}
use hrus.Calendar.{Date}
use hrus.Models.Jobs.{Counts}
use hrus.Models.Leave.{LeavePolicy, LeaveBalance}
use hrus.Db.{Db}
use hrus.Leave.Balances.{
  Key, same_key, balance_key, is_balance, find_balance, change_balance, add_balance, new_balance,
  annual_days,
}
use hrus.Leave.Ledger.Keys.{
  same_key-eq, same_key_refl, find_balance-change, find_balance-add, mapped,
}
use hrus.Leave.Accrual.{
  Pass, accrue_balance, same_ℤ, same_day, same_snapshot, tally_changes, visit, visit_new,
  visit_found,
}

-- The entitlement has reached the target and the carry-over is done.
abbrev pub IsSettled : ℤ → Option LeaveBalance → Type 0
IsSettled target none = ⊥
IsSettled target (some b) =
    (ltb_ℤ b.entitled target ≡ false) × (is_some b.carry_over_applied_at ≡ true)

module _ (now year : ℕ) (base : Option LeavePolicy) (target : ℤ) (last_year : Option LeaveBalance)
    (b : LeaveBalance) where
  pub accrue_balance-key :
      balance_key (accrue_balance now year base target last_year b) ≡ balance_key b
  unfolding accrue_balance
  accrue_balance-key = ground arith

  accrue_balance-IsSettled :
      IsSettled target (some (accrue_balance now year base target last_year b))
  unfolding accrue_balance
  accrue_balance-IsSettled = ground arith

  accrue_balance-keeps :
      (t : ℤ)
      → IsSettled t (some b)
      → IsSettled t (some (accrue_balance now year base target last_year b))
  unfolding accrue_balance
  accrue_balance-keeps t h = ground arith

  accrue_balance-fixed :
      IsSettled target (some b) → accrue_balance now year base target last_year b ≡ b
  unfolding accrue_balance
  accrue_balance-fixed h = ground arith

  tally-fixed :
      (counts : Counts)
      → IsSettled target (some b)
      → tally_changes base target last_year b counts ≡ counts
  tally-fixed counts h = ground arith

same_ℤ_refl : (a : ℤ) → same_ℤ a a ≡ true
same_ℤ_refl a = ground arith

same_day_refl : (d : Option Date) → same_day d d ≡ true
same_day_refl none = refl
same_day_refl (some d) = ground arith

same_snapshot_refl : (b : LeaveBalance) → same_snapshot b b ≡ true
unfolding same_snapshot
same_snapshot_refl b =
    rw (same_ℤ_refl b.entitled, same_ℤ_refl b.carried_over, same_ℤ_refl b.expired)
      (same_day_refl b.carry_over_expires_on)

update_first-fixed :
    (p : LeaveBalance → Bool) (f : LeaveBalance → LeaveBalance) (xs : List LeaveBalance)
    (x : LeaveBalance)
    → find p xs ≡ some x
    → f x ≡ x
    → update_first p f xs ≡ xs
unfolding find update_first
update_first-fixed p f [] x h e = refl
update_first-fixed p f (y ∷ xs) x h e = ground (arith, update_first-fixed p f xs x)

module _ (now year : ℕ) (k : Key) (base : Option LeavePolicy) (target : ℤ)
    (last_year : Option LeaveBalance) where
  abbrev next : LeaveBalance → LeaveBalance
  next = accrue_balance now year base target last_year

  -- The balance that a visit leaves under a key.
  abbrev left_at : Key → Db → Option LeaveBalance → Option LeaveBalance
  left_at j db none =
      if same_key j k
      then some (next (new_balance db.next_id k (annual_days base)))
      else find_balance j db
  left_at j db (some b) =
      if same_key j k then mapped next (find_balance j db) else find_balance j db

  new_finds :
      (j : Key) (s : Pass)
      → find_balance k s.db ≡ none
      → find_balance j (visit_new now year k base target last_year s).db ≡ left_at j s.db none
  unfolding find_balance add_balance
  new_finds j s h =
      let b = next (new_balance s.db.next_id k (annual_days base)) in
      let keyed : balance_key b ≡ k =
        accrue_balance-key now year base target last_year
          (new_balance s.db.next_id k (annual_days base)) in
      rw (keyed) at (find_balance-add j b s.db (rw keyed h))

  visit_found-finds :
      (j : Key) (s : Pass) (o : Option LeaveBalance)
      → find_balance k s.db ≡ o
      → find_balance j (visit_found now year k base target last_year o s).db ≡ left_at j s.db o
  visit_found-finds j s none h = new_finds j s h
  visit_found-finds j s (some b) h =
      find_balance-change j k next (λ x. accrue_balance-key now year base target last_year x) s.db

  visit-finds :
      (j : Key) (s : Pass)
      → find_balance j (visit now year k base target last_year s).db
        ≡ left_at j s.db (find_balance k s.db)
  unfolding visit
  visit-finds j s = visit_found-finds j s _ refl

  -- A visit settles its own balance, and keeps every other settled.
  pub visit-IsSettled :
      (s : Pass) → IsSettled target (find_balance k (visit now year k base target last_year s).db)
  visit-IsSettled s = rw (visit-finds k s) (by_balance (find_balance k s.db) refl)
    where
      by_balance :
          (o : Option LeaveBalance) → find_balance k s.db ≡ o → IsSettled target (left_at k s.db o)
      by_balance none h = rw (same_key_refl k) (
          accrue_balance-IsSettled now year base target last_year
            (new_balance s.db.next_id k (annual_days base)))
      by_balance (some b) h =
          rw (same_key_refl k, h) (accrue_balance-IsSettled now year base target last_year b)

  pub visit-keeps :
      (j : Key) (t : ℤ) (s : Pass)
      → IsSettled t (find_balance j s.db)
      → IsSettled t (find_balance j (visit now year k base target last_year s).db)
  visit-keeps j t s h =
      rw (visit-finds j s) (by_balance (find_balance k s.db) refl (find_balance j s.db) refl h)
    where
      by_balance :
          (o : Option LeaveBalance)
          → find_balance k s.db ≡ o
          → (q : Option LeaveBalance) → find_balance j s.db ≡ q
          → IsSettled t q
          → IsSettled t (left_at j s.db o)
      by_balance o e none f q = absurd q
      by_balance none e (some b) f q = ground (arith, same_key-eq j k)
      by_balance (some a) e (some b) f q = elim (Bool-cases (same_key j k)) [
        | inl y ↦ rw (y, f) (accrue_balance-keeps now year base target last_year b t q)
        | inr y ↦ rw (y, f) q
      ]

  unchanged :
      (db : Db) (b : LeaveBalance)
      → find_balance k db ≡ some b
      → next b ≡ b
      → change_balance k next db ≡ db
  unfolding change_balance find_balance
  unchanged db b e f =
      ap (λ (bs : List LeaveBalance). record db { leave_balances = bs })
        (update_first-fixed (is_balance k) next db.leave_balances b e f)

  -- Visiting a settled balance changes nothing.
  pub visit-fixed :
      (s : Pass)
      → IsSettled target (find_balance k s.db)
      → visit now year k base target last_year s ≡ s
  unfolding visit
  visit-fixed s h = by_balance (find_balance k s.db) refl h
    where
      by_balance :
          (o : Option LeaveBalance)
          → find_balance k s.db ≡ o
          → IsSettled target o
          → visit_found now year k base target last_year o s ≡ s
      by_balance none e q = absurd q
      by_balance (some b) e q =
          rw
            (
              unchanged s.db b e (accrue_balance-fixed now year base target last_year b q),
              accrue_balance-fixed now year base target last_year b q,
              same_snapshot_refl b,
              tally-fixed now year base target last_year b s.counts q,
            )
            refl
