-- ===== src/Reports/Applied.antt =====
-- Every filter of a report is a condition of its statement.
use hrus.Base.{ℕ, ◌≡◌, refl, true, ◌⊎◌, inl, inr, List, [], ◌∷◌, String, Bool-cases}
use mathlib.Core.Path.{subst}
use hrus.Errors.{Result, ok, err}
use hrus.Errors.Chain.{◌>>=◌, Settles, settled, refused}
use hrus.Reports.{ColumnDef, Dataset, FilterOp, is_null_op, column}
use hrus.Reports.Query.{
  text, number, day, datetime, boolean, Adapters, FilterValue, absent, one, many, ReportFilter,
  Cond, of_tenant, null, not_null, range, among, not_among, ilike, compare,
}
use hrus.Reports.Conditions.{
  V, matching, list_cond, value_cond, takes_list, list_filter, value_filter, null_cond,
  checked_filter, filter_expr, add_filters,
}
use hrus.Reports.Fits.{IsColumn, column-Settles}

-- What holds of a value, if there is one.
abbrev Gives : {A : Type 0} → (A → Type 0) → Result A → Type 0
Gives P (ok a) = P a
Gives P (err e) = Unit

module _ {A B : Type 0} (Q : A → Type 0) (P : B → Type 0) where
  Gives-bind :
      (r : Result A) (f : A → Result B)
      → Gives Q r
      → ((a : A) → Q a → Gives P (f a))
      → Gives P (r >>= f)
  unfolding ◌>>=◌
  Gives-bind (ok a) f h k = k a h
  Gives-bind (err e) f h k = tt

module _ {A B : Type 0} (P : B → Type 0) where
  Gives-then : (r : Result A) (f : A → Result B) → ((a : A) → Gives P (f a)) → Gives P (r >>= f)
  unfolding ◌>>=◌
  Gives-then (ok a) f k = k a
  Gives-then (err e) f k = tt

Settles-Gives : {A : Type 0} {P : A → Type 0} {r : Result A} → Settles P r → Gives P r
Settles-Gives (settled h) = h
Settles-Gives (refused h) = tt

pub Settles-and :
    {A : Type 0} {P Q : A → Type 0} {r : Result A}
    → Settles P r
    → Gives Q r
    → Settles (λ a. P a × Q a) r
Settles-and (settled h) k = settled (h, k)
Settles-and (refused h) k = refused h

module _ {N T : Type 0} (a : Adapters N T) where
  -- The condition has the operator and the column.
  abbrev Performs : FilterOp → String → Cond (V a) → Type 0
  Performs op key (of_tenant t) = ⊥
  Performs op key (null k) = (op ≡ FilterOp.is_null) × (k ≡ key)
  Performs op key (not_null k) = (op ≡ FilterOp.is_not_null) × (k ≡ key)
  Performs op key (range k lo hi) = (op ≡ FilterOp.between) × (k ≡ key)
  Performs op key (among k vs) = (op ≡ FilterOp.in_list) × (k ≡ key)
  Performs op key (not_among k vs) = (op ≡ FilterOp.not_in) × (k ≡ key)
  Performs op key (ilike k pattern) =
      ((op ≡ FilterOp.contains) ⊎ (op ≡ FilterOp.starts_with)) × (k ≡ key)
  Performs op key (compare o k v) = (op ≡ o) × (k ≡ key)

  -- One condition for each filter, in the same order.
  abbrev pub Applied : List (ReportFilter a.Raw) → List (Cond (V a)) → Type 0
  Applied [] [] = Unit
  Applied (flt ∷ filters) (c ∷ cs) = Performs flt.op flt.column c × Applied filters cs
  Applied _ _ = ⊥

  module _ (key : String) where
    matching-Performs :
        (op : FilterOp) (pattern : List ℕ → List ℕ) (v : V a)
        → (op ≡ FilterOp.contains) ⊎ (op ≡ FilterOp.starts_with)
        → Gives (Performs op key) (matching a pattern key v)
    unfolding matching
    matching-Performs op pattern (text s) h = (h, refl)
    matching-Performs op pattern (number n) h = tt
    matching-Performs op pattern (day d) h = tt
    matching-Performs op pattern (datetime t) h = tt
    matching-Performs op pattern (boolean b) h = tt

    value_cond-Performs :
        (op : FilterOp) (v : V a) → Gives (Performs op key) (value_cond a op key v)
    unfolding value_cond
    value_cond-Performs FilterOp.contains v = matching-Performs FilterOp.contains _ v (inl refl)
    value_cond-Performs FilterOp.starts_with v =
        matching-Performs FilterOp.starts_with _ v (inr refl)
    value_cond-Performs FilterOp.eq v = (refl, refl)
    value_cond-Performs FilterOp.ne v = (refl, refl)
    value_cond-Performs FilterOp.gt v = (refl, refl)
    value_cond-Performs FilterOp.gte v = (refl, refl)
    value_cond-Performs FilterOp.lt v = (refl, refl)
    value_cond-Performs FilterOp.lte v = (refl, refl)
    value_cond-Performs FilterOp.between v = (refl, refl)
    value_cond-Performs FilterOp.in_list v = (refl, refl)
    value_cond-Performs FilterOp.not_in v = (refl, refl)
    value_cond-Performs FilterOp.is_null v = (refl, refl)
    value_cond-Performs FilterOp.is_not_null v = (refl, refl)

    list_cond-Performs :
        (op : FilterOp) (vs : List (V a))
        → takes_list a op ≡ true
        → Gives (Performs op key) (list_cond a op key vs)
    unfolding list_cond
    list_cond-Performs FilterOp.between [] h = tt
    list_cond-Performs FilterOp.between (lo ∷ []) h = tt
    list_cond-Performs FilterOp.between (lo ∷ hi ∷ _) h = (refl, refl)
    list_cond-Performs FilterOp.in_list vs h = (refl, refl)
    list_cond-Performs FilterOp.not_in vs h = (refl, refl)
    list_cond-Performs FilterOp.eq vs h = cc
    list_cond-Performs FilterOp.ne vs h = cc
    list_cond-Performs FilterOp.gt vs h = cc
    list_cond-Performs FilterOp.gte vs h = cc
    list_cond-Performs FilterOp.lt vs h = cc
    list_cond-Performs FilterOp.lte vs h = cc
    list_cond-Performs FilterOp.contains vs h = cc
    list_cond-Performs FilterOp.starts_with vs h = cc
    list_cond-Performs FilterOp.is_null vs h = cc
    list_cond-Performs FilterOp.is_not_null vs h = cc

    null_cond-Performs :
        (op : FilterOp) → is_null_op op ≡ true → Performs op key (null_cond a op key)
    null_cond-Performs FilterOp.is_null h = (refl, refl)
    null_cond-Performs FilterOp.is_not_null h = (refl, refl)
    null_cond-Performs FilterOp.between h = cc
    null_cond-Performs FilterOp.in_list h = cc
    null_cond-Performs FilterOp.not_in h = cc
    null_cond-Performs FilterOp.eq h = cc
    null_cond-Performs FilterOp.ne h = cc
    null_cond-Performs FilterOp.gt h = cc
    null_cond-Performs FilterOp.gte h = cc
    null_cond-Performs FilterOp.lt h = cc
    null_cond-Performs FilterOp.lte h = cc
    null_cond-Performs FilterOp.contains h = cc
    null_cond-Performs FilterOp.starts_with h = cc

  list_filter-Performs :
      (col : ColumnDef) (op : FilterOp) (value : FilterValue a.Raw)
      → takes_list a op ≡ true
      → Gives (Performs op col.key) (list_filter a col op value)
  unfolding list_filter
  list_filter-Performs col op absent h = tt
  list_filter-Performs col op (one raw) h = tt
  list_filter-Performs col op (many []) h = tt
  list_filter-Performs col op (many (v ∷ vs)) h = Gives-then (Performs op col.key) _ _ (λ _.
      Gives-then (Performs op col.key) _ _
        (λ _. Gives-then (Performs op col.key) _ _ (λ xs. list_cond-Performs col.key op xs h)))

  filter_expr-Performs :
      (col : ColumnDef) (flt : ReportFilter a.Raw)
      → Gives (Performs flt.op col.key) (filter_expr a col flt)
  unfolding filter_expr checked_filter value_filter
  filter_expr-Performs col flt = Gives-then (Performs flt.op col.key) _ _ (λ _.
      elim (Bool-cases (is_null_op flt.op)) [
        | inl n ↦ rw n (null_cond-Performs col.key flt.op n)
        | inr n ↦ rw n (elim (Bool-cases (takes_list a flt.op)) [
          | inl l ↦ rw l (list_filter-Performs col flt.op flt.value l)
          | inr l ↦
              rw l (
                Gives-then (Performs flt.op col.key) _ _
                  (λ v. value_cond-Performs col.key flt.op v))
        ])
      ])

  -- The loop over the filters leaves none out.
  pub add_filters-Applied :
      (dataset : Dataset) (filters : List (ReportFilter a.Raw))
      → Gives (λ r. Applied filters r.0) (add_filters a dataset filters)
  unfolding add_filters
  add_filters-Applied dataset [] = tt
  add_filters-Applied dataset (flt ∷ rest) =
      let P : List (Cond (V a)) × List String → Type 0 = λ r. Applied (flt ∷ rest) r.0 in
      Gives-bind (IsColumn dataset flt.column) P (column dataset flt.column) _
        (Settles-Gives (column-Settles dataset flt.column))
        λ col known.
          Gives-bind (Performs flt.op col.key) P (filter_expr a col flt) _
            (filter_expr-Performs col flt)
            λ c performs.
              Gives-bind (λ r. Applied rest r.0) P (add_filters a dataset rest) _
                (add_filters-Applied dataset rest)
                λ r applied. (subst (λ k. Performs flt.op k c) known.1 performs, applied)
