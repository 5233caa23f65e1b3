-- ===== src/Leave/Ledger/Keys.antt =====
-- Keys of balances, and what `find_balance` finds after a balance is added or changed.
use hrus.Base.{
  ◌≡◌, true, Option, none, some, List, [], ◌∷◌, ◌++◌, arith, if◌then◌else◌, find, update_first,
}
use hrus.Db.{Db}
use hrus.Models.Leave.{LeaveBalance}
use hrus.Leave.Balances.{
  Key, same_key, balance_key, is_balance, find_balance, add_balance, change_balance,
}

pub same_key-eq : (j k : Key) → same_key j k ≡ true → j ≡ k
unfolding same_key
same_key-eq j k h = ground arith

pub same_key_refl : (k : Key) → same_key k k ≡ true
unfolding same_key
same_key_refl k = ground arith

pub same_key_sym : (j k : Key) → same_key j k ≡ same_key k j
unfolding same_key
same_key_sym j k = ground arith

same_key_left : (j k l : Key) → same_key j l ≡ true → same_key k l ≡ same_key k j
same_key_left j k l h = ground (arith, same_key-eq j l)

abbrev pub mapped : (LeaveBalance → LeaveBalance) → Option LeaveBalance → Option LeaveBalance
mapped f none = none
mapped f (some b) = some (f b)

module _ (k j : Key) (f : LeaveBalance → LeaveBalance)
    (keep : (b : LeaveBalance) → balance_key (f b) ≡ balance_key b) where
  find-update_keyed :
      (bs : List LeaveBalance)
      → find (is_balance k) (update_first (is_balance j) f bs)
        ≡ (if same_key k j then mapped f (find (is_balance k) bs) else find (is_balance k) bs)
  unfolding find update_first
  find-update_keyed [] = ground arith
  find-update_keyed (b ∷ bs) =
      ground
        (arith, keep b, same_key_left j k (balance_key b), same_key-eq k j, find-update_keyed bs)

  pub find_balance-change :
      (db : Db)
      → find_balance k (change_balance j f db)
        ≡ (if same_key k j then mapped f (find_balance k db) else find_balance k db)
  unfolding find_balance change_balance
  find_balance-change db = find-update_keyed db.leave_balances

module _ (k : Key) (b : LeaveBalance) where
  find-append_keyed :
      (bs : List LeaveBalance)
      → find (is_balance (balance_key b)) bs ≡ none
      → find (is_balance k) (bs ++ b ∷ [])
        ≡ (if same_key k (balance_key b) then some b else find (is_balance k) bs)
  unfolding find
  find-append_keyed [] h = ground arith
  find-append_keyed (c ∷ bs) h = ground (
    arith,
    same_key-eq k (balance_key b),
    same_key-eq (balance_key b) (balance_key c),
    find-append_keyed bs,
  )

  pub find_balance-add :
      (db : Db)
      → find_balance (balance_key b) db ≡ none
      → find_balance k (add_balance b db)
        ≡ (if same_key k (balance_key b) then some b else find_balance k db)
  unfolding find_balance add_balance
  find_balance-add db h = find-append_keyed db.leave_balances h
