-- ===== src/Leave/Ledger/Adjusted.antt =====
-- backend/app/services/leave_balances.py, `adjust_balance`: the adjusted balance is never negative,
-- and the days pending and used stay those of the requests.
use hrus.Base.{◌≡◌, refl, sym, ◌∙◌, false, not, some, find, find-update_first_self, arith}
use hrus.Base.Int.{ℤ, pos, ◌+ℤ◌, ◌≤ℤ◌, ltb_ℤ, int_laws, +ℤ_zero}
use hrus.Errors.{Code, rule_violation, not_found}
use hrus.Tx.{Yields, Yields-read, Yields-bind, or_raise, raise_if, raise_if-Yields, or_raise-Yields}
use hrus.Models.Auth.{AccessClaims}
use hrus.Models.Leave.{LeaveBalance, available}
use hrus.Db.{Db, Env, record_audit}
use hrus.Leave.Config.{get_leave_type, is_leave_type}
use hrus.Leave.Balances.{
  Key, balance_key, is_balance, find_balance, get_balance, change_balance, BalanceAdjustment,
  adjust, adjustment_key, adjust_balance,
}
use hrus.Leave.Ledger.{IsConsistent}
use hrus.Leave.Ledger.Keys.{same_key_refl}
use hrus.Leave.Ledger.Moves.{
  IsFetched, get_balance-IsFetched, fetch-IsOff, change-IsOff, IsConsistent-IsOff,
  IsOff-IsConsistent,
}
use hrus.Leave.Ledger.Preserved.{SameLedger-IsConsistent}

-- The balance that an adjustment returns: it is the stored one, and it is not negative.
pub record IsAdjusted (b : LeaveBalance) (db : Db) : Type 0 where
  pub consistent : IsConsistent db
  pub stored : find_balance (balance_key b) db ≡ some b
  pub solvent : pos 0 ≤ℤ available b

module _ (k : Key) (delta : ℤ) (b : LeaveBalance) (db db' : Db) (f : IsFetched k db b db') where
  fetched_found : find_balance k db' ≡ some b
  fetched_found = f.views k ∙ ground (arith, same_key_refl k)

  changed-IsConsistent : IsConsistent db → IsConsistent (change_balance k (adjust delta) db')
  unfolding ◌+ℤ◌
  changed-IsConsistent c = IsOff-IsConsistent k (change_balance k (adjust delta) db') (
      change-IsOff k (pos 0) (pos 0) (pos 0) (pos 0) db' b fetched_found (adjust delta) (λ x. refl)
        (sym (+ℤ_zero b.pending)) (sym (+ℤ_zero b.used))
        (fetch-IsOff k k (pos 0) (pos 0) db b db' (IsConsistent-IsOff k db c) f))

  changed-stored : find_balance k (change_balance k (adjust delta) db') ≡ some (adjust delta b)
  unfolding find_balance change_balance
  changed-stored =
      find-update_first_self (is_balance k) (adjust delta) db'.leave_balances b (λ y h. h)
        fetched_found

not_negative : (z : ℤ) → ltb_ℤ z (pos 0) ≡ false → pos 0 ≤ℤ z
not_negative z h = ground arith

adjusted-solvent :
    (b : LeaveBalance) (delta : ℤ)
    → ltb_ℤ (available b +ℤ delta) (pos 0) ≡ false
    → pos 0 ≤ℤ available (adjust delta b)
unfolding available
adjusted-solvent b delta h =
    let shifted : available (adjust delta b) ≡ available b +ℤ delta = omega int_laws in
    rw shifted (not_negative (available b +ℤ delta) h)

-- From consistent balances, an adjustment that succeeds leaves consistent balances, and returns the
-- balance that it stored, whose available days are not negative.
pub adjust_balance-IsAdjusted :
    (env : Env) (actor : AccessClaims) (data' : BalanceAdjustment) (db : Db)
    → IsConsistent db
    → Yields IsAdjusted (adjust_balance env actor data' db)
unfolding adjust_balance get_leave_type record_audit change_balance find_balance
adjust_balance-IsAdjusted env actor data' db c =
    Yields-read IsAdjusted _
      (or_raise not_found (find (is_leave_type actor.tenant_id data'.leave_type_id) db.leave_types))
      _ db (or_raise-Yields _ _ db)
      λ leave_type _.
        let k = adjustment_key actor.tenant_id leave_type data' in
        Yields-read IsAdjusted _
          (raise_if (not leave_type.requires_balance)
            (rule_violation Code.leave_type_without_balance))
          _ db (raise_if-Yields _ _ db)
          λ _ _.
            Yields-bind (IsFetched k db) IsAdjusted (get_balance env k) _ db
              (get_balance-IsFetched env k db)
              λ b db' e f.
                Yields-read IsAdjusted _
                  (raise_if (ltb_ℤ (available b +ℤ data'.delta) (pos 0))
                    (rule_violation (Code.balance_negative (available b))))
                  _ db' (raise_if-Yields _ _ db')
                  λ _ enough. record {
                    consistent =
                        SameLedger-IsConsistent (change_balance k (adjust data'.delta) db') _
                          (record { types = refl; requests = refl; balances = refl })
                          (changed-IsConsistent k data'.delta b db db' f c);
                    stored = rw f.keyed (changed-stored k data'.delta b db db' f);
                    solvent = adjusted-solvent b data'.delta enough;
                  }
