-- ===== src/Pagination/Order.antt =====
-- ORDER BY puts the rows in the order of the sort columns, and keeps each of them.
use mathlib.Core.List.{Perm}
use mathlib.Core.List.Perm
use hrus.Base.{
  suc, ◌≡◌, refl, ap, ◌∙◌, ◌⊎◌, inl, inr, Bool, true, false, List, [], ◌∷◌, length, All, All-map,
  Bool-cases,
}
use hrus.Pagination.{CursorValue, goes_before, insert, order_by}

module _ {Float Decimal R : Type 0}
    (less : List (CursorValue Float Decimal) → List (CursorValue Float Decimal) → Bool)
    (key : R → List (CursorValue Float Decimal)) where
  -- The values of the sort columns of `r` are below those of `q`, or above where the order descends.
  abbrev pub Before : Bool → R → R → Type 0
  Before false r q = less (key r) (key q) ≡ true
  Before true r q = less (key q) (key r) ≡ true

  -- Every row comes before all that stand behind it.
  abbrev pub InOrder : Bool → List R → Type 0
  InOrder descending [] = Unit
  InOrder descending (r ∷ rs) = All (Before descending r) rs × InOrder descending rs

  -- Of two rows, one is below the other: the sort columns are unique together.
  abbrev Differs : R → R → Type 0
  Differs r q = (less (key r) (key q) ≡ true) ⊎ (less (key q) (key r) ≡ true)

  abbrev pub IsUnique : List R → Type 0
  IsUnique [] = Unit
  IsUnique (r ∷ rs) = All (Differs r) rs × IsUnique rs

  module _ (descending : Bool) where
    abbrev insert' : R → List R → List R
    insert' = insert less key descending

    abbrev order_by' : List R → List R
    order_by' = order_by less key descending

    insert-Perm : (x : R) (ys : List R) → Perm (insert' x ys) (x ∷ ys)
    unfolding insert
    insert-Perm x [] = Perm.refl (x ∷ [])
    insert-Perm x (y ∷ ys) = elim (Bool-cases (goes_before less key descending x y)) [
      | inl e ↦ rw e (Perm.refl (x ∷ y ∷ ys))
      | inr e ↦ rw e (Perm.trans (Perm.cons y (insert-Perm x ys)) (Perm.swap x y ys))
    ]

    pub order_by-Perm : (rows : List R) → Perm (order_by' rows) rows
    unfolding order_by
    order_by-Perm [] = Perm.refl []
    order_by-Perm (x ∷ rows) =
        Perm.trans (insert-Perm x (order_by' rows)) (Perm.cons x (order_by-Perm rows))

    length-insert : (x : R) (ys : List R) → length (insert' x ys) ≡ suc (length ys)
    unfolding insert
    length-insert x [] = refl
    length-insert x (y ∷ ys) = elim (Bool-cases (goes_before less key descending x y)) [
      | inl e ↦ rw e refl
      | inr e ↦ rw e (ap suc (length-insert x ys))
    ]

    pub length-order_by : (rows : List R) → length (order_by' rows) ≡ length rows
    unfolding order_by
    length-order_by [] = refl
    length-order_by (x ∷ rows) = length-insert x (order_by' rows) ∙ ap suc (length-order_by rows)

    insert-All : (P : R → Type 0) (x : R) (ys : List R) → P x → All P ys → All P (insert' x ys)
    unfolding insert
    insert-All P x [] h all = (h, tt)
    insert-All P x (y ∷ ys) h all = elim (Bool-cases (goes_before less key descending x y)) [
      | inl e ↦ rw e (h, all)
      | inr e ↦ rw e (all.0, insert-All P x ys h all.1)
    ]

    order_by-All : (P : R → Type 0) (rows : List R) → All P rows → All P (order_by' rows)
    unfolding order_by
    order_by-All P [] all = tt
    order_by-All P (x ∷ rows) all =
        insert-All P x (order_by' rows) all.0 (order_by-All P rows all.1)

    module _
        (transitive : (a b c : List (CursorValue Float Decimal))
          → less a b ≡ true
          → less b c ≡ true
          → less a c ≡ true) where
      Before-trans : (d : Bool) (a b c : R) → Before d a b → Before d b c → Before d a c
      Before-trans false a b c h k = transitive (key a) (key b) (key c) h k
      Before-trans true a b c h k = transitive (key c) (key b) (key a) k h

      goes_before-Before : (d : Bool) (a b : R) → goes_before less key d a b ≡ true → Before d a b
      goes_before-Before false a b h = h
      goes_before-Before true a b h = h

      Differs-Before :
          (d : Bool) (a b : R) → Differs a b → goes_before less key d a b ≡ false → Before d b a
      Differs-Before false a b (inl h) e = cc
      Differs-Before false a b (inr h) e = h
      Differs-Before true a b (inl h) e = h
      Differs-Before true a b (inr h) e = cc

      insert-InOrder :
          (x : R) (ys : List R)
          → All (Differs x) ys
          → InOrder descending ys
          → InOrder descending (insert' x ys)
      unfolding insert
      insert-InOrder x [] d o = (tt, tt)
      insert-InOrder x (y ∷ ys) d o = elim (Bool-cases (goes_before less key descending x y)) [
        | inl e ↦
            let first = goes_before-Before descending x y e in
            rw e (
              (
                first,
                All-map (Before descending y) (Before descending x) ys
                    (λ q h. Before-trans descending x y q first h) o.0,
              ),
              o,
            )
        | inr e ↦ rw e (
          insert-All (Before descending y) x ys (Differs-Before descending x y d.0 e) o.0,
          insert-InOrder x ys d.1 o.1,
        )
      ]

      pub order_by-InOrder : (rows : List R) → IsUnique rows → InOrder descending (order_by' rows)
      unfolding order_by
      order_by-InOrder [] u = tt
      order_by-InOrder (x ∷ rows) u =
          insert-InOrder x (order_by' rows) (order_by-All (Differs x) rows u.0)
            (order_by-InOrder rows u.1)
