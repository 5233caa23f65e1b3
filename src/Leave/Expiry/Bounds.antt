-- ===== src/Leave/Expiry/Bounds.antt =====
-- What an expiry takes from a balance, and that it happens once.
use hrus.Base.{
  ℕ, ◌≡◌, refl, ◌∙◌, Bool, false, Option, List, [], ◌∷◌, arith, filter, update_all, Bool-cases, inl,
  inr,
}
use hrus.Base.Int.{ℤ, pos, ◌+ℤ◌, ◌-ℤ◌, ltb_ℤ, max_ℤ, min_ℤ, int_laws, +ℤ_parts}
use hrus.Calendar.{Date}
use hrus.Models.Leave.{LeaveBalance, LeaveType, available}
use hrus.Db.{Db, Env}
use hrus.Leave.Accrual.{audit_changed}
use hrus.Leave.Expiry.{
  is_expiring, unused, expire_balance, tally_expired, losing, expire_carry_over,
}

less_zero : (a b x : ℤ) → a ≡ b +ℤ x → ltb_ℤ (pos 0) x ≡ ltb_ℤ b a
less_zero a b x e = rw e (shifted b x)
  where
    shifted : (b x : ℤ) → ltb_ℤ (pos 0) x ≡ ltb_ℤ b (b +ℤ x)
    shifted b x = ground (arith, +ℤ_parts b x)

sub_max : (a b x : ℤ) → a ≡ b +ℤ x → a -ℤ max_ℤ (pos 0) x ≡ min_ℤ a b
sub_max a b x e = elim (Bool-cases (ltb_ℤ b a)) [
  | inl h ↦ rw (less_zero a b x e, h, e) (omega int_laws)
  | inr h ↦ rw (less_zero a b x e, h) (omega int_laws)
]

-- After an expiry the available days are those that there were before, but no more than the
-- entitlement and the adjustments allow, less what expired earlier: days taken count against the
-- days carried over first.
pub expire_balance-available :
    (now : ℕ) (b : LeaveBalance)
    → available (expire_balance now b) ≡ min_ℤ (available b) (b.entitled +ℤ b.adjusted -ℤ b.expired)
unfolding available expire_balance unused
expire_balance-available now b =
    let x = b.carried_over -ℤ b.used -ℤ b.pending in
    let taken : b.entitled
          +ℤ b.carried_over
          +ℤ b.adjusted
          -ℤ b.used
          -ℤ b.pending
          -ℤ (b.expired +ℤ max_ℤ (pos 0) x)
        ≡ available b -ℤ max_ℤ (pos 0) x =
      omega int_laws in
    let parts : available b ≡ (b.entitled +ℤ b.adjusted -ℤ b.expired) +ℤ x = omega int_laws in
    taken ∙ sub_max (available b) (b.entitled +ℤ b.adjusted -ℤ b.expired) x parts

module _ (p : LeaveBalance → Bool) (f : LeaveBalance → LeaveBalance)
    (done : (b : LeaveBalance) → p (f b) ≡ false) where
  filter-update_all : (bs : List LeaveBalance) → filter p (update_all p f bs) ≡ []
  unfolding filter update_all
  filter-update_all [] = refl
  filter-update_all (b ∷ bs) = ground (arith, done b, filter-update_all bs)

  update_all_again :
      (g : LeaveBalance → LeaveBalance) (bs : List LeaveBalance)
      → update_all p g (update_all p f bs) ≡ update_all p f bs
  unfolding update_all
  update_all_again g [] = refl
  update_all_again g (b ∷ bs) = ground (arith, done b, update_all_again g bs)

expired-done :
    (types : List LeaveType) (t first last now : ℕ) (as_of : Date) (b : LeaveBalance)
    → is_expiring types t first last as_of (expire_balance now b) ≡ false
unfolding is_expiring expire_balance
expired-done types t first last now as_of b = ground arith

-- Running an expiry again for the same date, at any later time and whoever starts it, changes nothing
-- at all and reports no change.
expire_carry_over-again :
    (env : Env) (later tenant_id first_id last_id : ℕ) (as_of : Date) (actor actor' : Option ℕ)
    (db : Db)
    → expire_carry_over
        (record env { now = later })
        tenant_id
        first_id
        last_id
        as_of
        actor'
        (expire_carry_over env tenant_id first_id last_id as_of actor db).0
      ≡ ((expire_carry_over env tenant_id first_id last_id as_of actor db).0, [])
unfolding expire_carry_over tally_expired losing audit_changed filter
expire_carry_over-again env later t first last as_of actor actor' db =
    let p = is_expiring db.leave_types t first last as_of in
    let done = λ (b : LeaveBalance). expired-done db.leave_types t first last env.now as_of b in
    rw
      (
        filter-update_all p (expire_balance env.now) done db.leave_balances,
        update_all_again p (expire_balance env.now) done (expire_balance later) db.leave_balances,
      )
      refl
