-- ===== src/Reports/Filters.antt =====
-- The conditions that filters become.
use hrus.Base.{
  true_of_negation, ℕ, suc, ◌≡◌, refl, ◌&&◌, not, true, false, Option, none, some, List, [], ◌∷◌,
  String, str_eq, any, All, length, map, ◌⊎◌, arith, Bool-cases, inl, inr, ◌==◌, Elem, ap, sym,
}
use mathlib.Core.Path.{subst}
use hrus.Calendar.{Date}
use hrus.Errors.Chain.{Settles, settled, refused, Settles-bind, error_if-Settles}
use hrus.Reports.{ColumnType, ColumnDef, Dataset, FilterOp, is_null_op, op_allowed}
use hrus.Reports.Query.{
  Value, text, number, day, datetime, boolean, Adapters, FilterValue, absent, one, many,
  ReportFilter, Cond,
}
use hrus.Reports.Conditions.{
  V, as_value, among_values, validate, coerce, coerce_list, single, matching, list_cond, value_cond,
  is_between, takes_list, list_filter, value_filter, null_cond, checked_filter, filter_expr,
  add_filters,
}
use hrus.Reports.Compile.{year_of, default_period}
use hrus.Reports.Fits.{PeriodFits, IsColumn, value_fits, OfColumn, CondFits, column-Settles}

among_values-any :
    (values : List String) (o : Option String) (s : String)
    → among_values values o ≡ some s
    → any (λ v. str_eq v s) values ≡ true
among_values-any values none s h = cc
among_values-any values (some t) s h = ground arith

module _ {N T : Type 0} where
  as_value-Settles :
      {A : Type 0} {P : Value N T → Type 0} (f : A → Value N T) (o : Option A)
      → ((x : A) → o ≡ some x → P (f x))
      → Settles P (as_value f o)
  unfolding as_value
  as_value-Settles f none h = refused tt
  as_value-Settles f (some x) h = settled (h x refl)

  is_text :
      (values : List String) (v : Value N T)
      → value_fits ColumnType.text values v ≡ true
      → (s : String) × (v ≡ text s)
  unfolding value_fits
  is_text values (text s) h = (s, refl)
  is_text values (number n) h = cc
  is_text values (day d) h = cc
  is_text values (datetime t) h = cc
  is_text values (boolean b) h = cc

searched_text :
    (type : ColumnType) → op_allowed type FilterOp.contains ≡ true → type ≡ ColumnType.text
unfolding op_allowed
searched_text ColumnType.text h = refl
searched_text ColumnType.enum h = cc
searched_text ColumnType.number h = cc
searched_text ColumnType.date h = cc
searched_text ColumnType.datetime h = cc
searched_text ColumnType.boolean h = cc

begun_text :
    (type : ColumnType) → op_allowed type FilterOp.starts_with ≡ true → type ≡ ColumnType.text
unfolding op_allowed
begun_text ColumnType.text h = refl
begun_text ColumnType.enum h = cc
begun_text ColumnType.number h = cc
begun_text ColumnType.date h = cc
begun_text ColumnType.datetime h = cc
begun_text ColumnType.boolean h = cc

module _ {N T : Type 0} (a : Adapters N T) where
  validate-Settles :
      (type : ColumnType) (values : List String) (raw : a.Raw)
      → Settles (λ v. value_fits type values v ≡ true) (validate a type values raw)
  unfolding validate value_fits
  validate-Settles ColumnType.text values raw = as_value-Settles text _ (λ x e. refl)
  validate-Settles ColumnType.enum values raw =
      as_value-Settles text _ (λ x e. among_values-any values _ x e)
  validate-Settles ColumnType.number values raw = as_value-Settles number _ (λ x e. refl)
  validate-Settles ColumnType.date values raw = as_value-Settles day _ (λ x e. refl)
  validate-Settles ColumnType.datetime values raw = as_value-Settles datetime _ (λ x e. refl)
  validate-Settles ColumnType.boolean values raw = as_value-Settles boolean _ (λ x e. refl)

  module _ (col : ColumnDef) where
    coerce-Settles : (o : Option a.Raw) → Settles (OfColumn col) (coerce a col o)
    unfolding coerce
    coerce-Settles none = refused tt
    coerce-Settles (some raw) = validate-Settles col.type col.enum_values raw

    coerce_list-Settles :
        (vs : List (Option a.Raw))
        → Settles (λ xs. All (OfColumn col) xs × (length xs ≡ length vs)) (coerce_list a col vs)
    unfolding coerce_list
    coerce_list-Settles [] = settled (tt, refl)
    coerce_list-Settles (v ∷ vs) =
        let rest = coerce_list-Settles vs in
        Settles-bind (coerce-Settles v)
          (λ x fx. Settles-bind rest (λ xs h. settled ((fx, h.0), ap suc h.1)))

    module _ (dataset : Dataset) (key : String) (known : IsColumn dataset key col) where
      matching-Settles :
          (pattern : List ℕ → List ℕ) (v : V a)
          → col.type ≡ ColumnType.text
          → OfColumn col v
          → Settles (CondFits dataset) (matching a pattern key v)
      unfolding matching
      matching-Settles pattern v e fits =
          let found =
            is_text col.enum_values v
              (subst (λ type. value_fits type col.enum_values v ≡ true) e fits) in
          subst (λ x. Settles (CondFits dataset) (matching a pattern key x)) (sym found.1)
            (settled (col, known, e))

      value_cond-Settles :
          (op : FilterOp) (v : V a)
          → is_null_op op ≡ false
          → takes_list a op ≡ false
          → op_allowed col.type op ≡ true
          → OfColumn col v
          → Settles (CondFits dataset) (value_cond a op key v)
      unfolding value_cond
      value_cond-Settles FilterOp.eq v n l o f = settled (col, known, o, f)
      value_cond-Settles FilterOp.ne v n l o f = settled (col, known, o, f)
      value_cond-Settles FilterOp.gt v n l o f = settled (col, known, o, f)
      value_cond-Settles FilterOp.gte v n l o f = settled (col, known, o, f)
      value_cond-Settles FilterOp.lt v n l o f = settled (col, known, o, f)
      value_cond-Settles FilterOp.lte v n l o f = settled (col, known, o, f)
      value_cond-Settles FilterOp.between v n l o f = cc
      value_cond-Settles FilterOp.in_list v n l o f = cc
      value_cond-Settles FilterOp.not_in v n l o f = cc
      value_cond-Settles FilterOp.contains v n l o f =
          matching-Settles _ v (searched_text col.type o) f
      value_cond-Settles FilterOp.starts_with v n l o f =
          matching-Settles _ v (begun_text col.type o) f
      value_cond-Settles FilterOp.is_null v n l o f = cc
      value_cond-Settles FilterOp.is_not_null v n l o f = cc

      list_cond-Settles :
          (op : FilterOp) (vs : List (V a))
          → takes_list a op ≡ true
          → (is_between a op && not (length vs == 2)) ≡ false
          → op_allowed col.type op ≡ true
          → All (OfColumn col) vs
          → Settles (CondFits dataset) (list_cond a op key vs)
      unfolding list_cond
      list_cond-Settles FilterOp.between [] l two o f = cc
      list_cond-Settles FilterOp.between (lo ∷ []) l two o f = cc
      list_cond-Settles FilterOp.between (lo ∷ hi ∷ _) l two o f =
          settled (col, known, o, f.0, f.1.0)
      list_cond-Settles FilterOp.in_list vs l two o f = settled (col, known, o, f)
      list_cond-Settles FilterOp.not_in vs l two o f = settled (col, known, o, f)
      list_cond-Settles FilterOp.eq vs l two o f = cc
      list_cond-Settles FilterOp.ne vs l two o f = cc
      list_cond-Settles FilterOp.gt vs l two o f = cc
      list_cond-Settles FilterOp.gte vs l two o f = cc
      list_cond-Settles FilterOp.lt vs l two o f = cc
      list_cond-Settles FilterOp.lte vs l two o f = cc
      list_cond-Settles FilterOp.contains vs l two o f = cc
      list_cond-Settles FilterOp.starts_with vs l two o f = cc
      list_cond-Settles FilterOp.is_null vs l two o f = cc
      list_cond-Settles FilterOp.is_not_null vs l two o f = cc

      list_filter-Settles :
          (op : FilterOp) (value : FilterValue a.Raw)
          → takes_list a op ≡ true
          → op_allowed col.type op ≡ true
          → col.key ≡ key
          → Settles (CondFits dataset) (list_filter a col op value)
      unfolding list_filter
      list_filter-Settles op absent l o k = refused tt
      list_filter-Settles op (one raw) l o k = refused tt
      list_filter-Settles op (many []) l o k = refused tt
      list_filter-Settles op (many (v ∷ vs)) l o k =
          Settles-bind (error_if-Settles _ _ tt) (λ _ two.
            Settles-bind (error_if-Settles _ _ tt) (λ _ few.
              Settles-bind (coerce_list-Settles (v ∷ vs))
                (λ xs h. rw k (list_cond-Settles op xs l (rw h.1 two) o h.0))))

      null_cond-CondFits : (op : FilterOp) → CondFits dataset (null_cond a op key)
      null_cond-CondFits FilterOp.is_null = (col, known)
      null_cond-CondFits _ = (col, known)

      filter_expr-Settles :
          (flt : ReportFilter a.Raw) → Settles (CondFits dataset) (filter_expr a col flt)
      unfolding filter_expr checked_filter value_filter
      filter_expr-Settles flt = Settles-bind (error_if-Settles _ _ tt) (λ _ h.
          let o = true_of_negation _ h in
          elim (Bool-cases (is_null_op flt.op)) [
            | inl n ↦ rw (n, known.1) (settled (null_cond-CondFits flt.op))
            | inr n ↦ rw n (elim (Bool-cases (takes_list a flt.op)) [
              | inl l ↦ rw l (list_filter-Settles flt.op flt.value l o known.1)
              | inr l ↦ rw l (
                  Settles-bind (coerce-Settles (single a flt.value))
                    (λ v f. rw known.1 (value_cond-Settles flt.op v n l o f)))
            ])
          ])

  abbrev pub Filtered :
      Dataset → List (ReportFilter a.Raw) → List (Cond (V a)) × List String → Type 0
  Filtered dataset filters r =
      All (CondFits dataset) r.0 × (r.1 ≡ map (λ (f : ReportFilter a.Raw). f.column) filters)

  -- Every filter gives a condition, on the column that it names.
  pub add_filters-Settles :
      (dataset : Dataset) (filters : List (ReportFilter a.Raw))
      → Settles (Filtered dataset filters) (add_filters a dataset filters)
  unfolding add_filters
  add_filters-Settles dataset [] = settled (tt, refl)
  add_filters-Settles dataset (flt ∷ rest) =
      let others = add_filters-Settles dataset rest in
      Settles-bind (column-Settles dataset flt.column) (λ col known.
        Settles-bind (filter_expr-Settles col dataset flt.column known flt)
          (λ expr fits. Settles-bind others (λ r h. settled ((fits, h.0), cc (known.1, h.1)))))

  -- A filter names the period, or the condition is that of the current year.
  abbrev pub Bounded : Option String → List String → Date → List (Cond (V a)) → Type 0
  Bounded none filtered today cs = Unit
  Bounded (some p) filtered today cs =
      (any (str_eq p) filtered ≡ true) ⊎ Elem (year_of a p today.year) cs

  pub default_period-Settles :
      (dataset : Dataset) (period : Option String) (filtered : List String) (today : Date)
      → PeriodFits dataset period
      → Settles
          (λ cs. All (CondFits dataset) cs × Bounded period filtered today cs)
          (default_period a dataset period filtered today)
  unfolding default_period op_allowed value_fits
  default_period-Settles dataset none filtered today h = settled (tt, tt)
  default_period-Settles dataset (some p) filtered today (col, known, e) =
      elim (Bool-cases (any (str_eq p) filtered)) [
        | inl named ↦ rw named (settled (tt, inl refl))
        | inr other ↦ rw other (
            Settles-bind (column-Settles dataset p) (λ c k.
              settled (((col, known, rw e refl, rw e refl, rw e refl), tt), inr (inl refl))))
      ]
