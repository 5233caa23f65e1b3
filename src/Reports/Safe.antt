-- ===== src/Reports/Safe.antt =====
-- A report can only become a statement over one view of the catalogue, its columns, the tenant's
-- rows and a bounded period.
use hrus.Base.{
  str_eq→eq, All-append, All-find, ℕ, ◌+◌, ◌<◌, ◌≡◌, refl, false, ◌&&◌, Option, none, some, List,
  [], ◌∷◌, ◌++◌, map, String, find, All, Elem, inl, inr, length, arith, find-holds,
}
use hrus.Calendar.{Date}
use hrus.Errors.Chain.{
  Settles, settled, Settles-bind, Settles-map, error_if-Settles, or_error-Settles,
}
use hrus.Reports.{ColumnType, ColumnDef, Dataset, get_dataset}
use hrus.Reports.Catalog.{datasets, plain}
use hrus.Reports.Query.{
  Adapters, ReportQuery, ReportFilter, ReportAggregate, Cond, of_tenant, CompiledReport,
}
use hrus.Reports.Conditions.{V}
use hrus.Reports.Compile.{is_empty, compile_dataset, compile_query, has_duplicates}
use hrus.Reports.Fits.{PeriodFits, CondFits, SelectFits}
use hrus.Reports.Filters.{Bounded, add_filters-Settles, default_period-Settles}
use hrus.Reports.Applied.{Applied, Settles-and, add_filters-Applied}
use hrus.Reports.Selection.{
  key_of, select_of, Column, OrderedBy, Grouped, columns_of-Settles, add_aggregates-Settles,
  order_of-Settles, or_first-Settles, groups-Grouped, find-Elem,
}
use hrus.Reports.Dims.{dims-IsSelection, dims-length}

module _ {N T : Type 0} (a : Adapters N T) where
  -- The statement of a report is one of the catalogue, of the tenant, and bounded in time.
  pub record IsSafe (spec : ReportQuery a.Raw) (tenant_id : ℕ) (today : Date) (dataset : Dataset)
      (r : CompiledReport (V a)) : Type 0 where
    pub from_view : r.stmt.view ≡ dataset.view
    pub conditions : List (Cond (V a))
    pub own_rows : r.stmt.conditions ≡ of_tenant tenant_id ∷ conditions
    pub applied : List (Cond (V a))
    pub period : List (Cond (V a))
    pub filters_first : conditions ≡ applied ++ period
    pub filtered : Applied a spec.filters applied
    pub conditions_fit : All (CondFits dataset) conditions
    pub bounded :
        Bounded a dataset.default_period_column
          (map (λ (f : ReportFilter a.Raw). f.column) spec.filters)
          today
          conditions
    pub selected_fit : All (λ s. SelectFits dataset (select_of s)) r.stmt.selected
    pub grouped : All (λ s. Grouped spec.aggregates r.stmt.group_by (select_of s)) r.stmt.selected
    pub distinct : has_duplicates (map key_of r.stmt.selected) ≡ false
    pub labelled : map (λ (c : Column). c.0) r.columns ≡ map key_of r.stmt.selected
    pub ordered : OrderedBy r.stmt.selected r.stmt.order_by
    pub in_order : 0 < length r.stmt.order_by

some_selected :
    (dims : List ColumnDef) (aggregates : List ReportAggregate) (keys : List String)
    → map (λ (c : ColumnDef). c.key) dims ≡ keys
    → (is_empty keys && is_empty aggregates) ≡ false
    → 0 < length dims + length aggregates
some_selected [] [] keys same h = cc (rw (← same) at h)
some_selected [] (a ∷ aggregates) keys same h = omega arith
some_selected (c ∷ dims) aggregates keys same h = omega arith

module _ {A : Type 0} where
  Elem-append : (x : A) (xs ys : List A) → Elem x ys → Elem x (xs ++ ys)
  Elem-append x [] ys h = h
  Elem-append x (y ∷ xs) ys h = inr (Elem-append x xs ys h)

datasets-PeriodFits : All (λ d. PeriodFits d d.default_period_column) datasets
unfolding find
datasets-PeriodFits =
    (tt, (tt, (tt, ((plain "start_date" ColumnType.date, (refl, refl), refl), tt))))

module _ {N T : Type 0} (a : Adapters N T) (spec : ReportQuery a.Raw) (tenant_id : ℕ)
    (today : Date) where
  Bounded-append :
      (period : Option String) (filtered names : List String) (cs ds : List (Cond (V a)))
      → filtered ≡ names
      → Bounded a period filtered today ds
      → Bounded a period names today (cs ++ ds)
  Bounded-append none filtered names cs ds e h = tt
  Bounded-append (some p) filtered names cs ds e (inl h) = inl (rw (← e) h)
  Bounded-append (some p) filtered names cs ds e (inr h) = inr (Elem-append _ cs ds h)

  compile_dataset-IsSafe :
      (dataset : Dataset)
      → PeriodFits dataset dataset.default_period_column
      → Settles
          (IsSafe a spec tenant_id today dataset)
          (compile_dataset a spec tenant_id today dataset)
  unfolding compile_dataset
  compile_dataset-IsSafe dataset period = Settles-bind (error_if-Settles _ _ tt) (λ _ some_key.
      Settles-bind (error_if-Settles _ _ tt) (λ _ once.
        Settles-bind (columns_of-Settles dataset spec.columns) (λ dims known.
          Settles-bind
            (Settles-and (add_filters-Settles a dataset spec.filters)
              (add_filters-Applied a dataset spec.filters))
            (λ filters fit.
              Settles-bind
                (default_period-Settles a dataset dataset.default_period_column filters.1 today
                  period)
                (λ year bounded.
                  Settles-bind
                    (add_aggregates-Settles dataset spec.columns spec.aggregates _ _
                      (dims-IsSelection dataset spec.columns dims known.0 known.1 once))
                    (λ chosen kept. Settles-bind (order_of-Settles chosen.0 spec.sort) (λ sorted by.
                      Settles-bind
                        (or_first-Settles chosen.0 sorted
                          (omega (
                            arith,
                            kept.1,
                            dims-length dims,
                            some_selected dims spec.aggregates spec.columns known.1 some_key,
                          ))
                          by)
                        (λ order ordered. settled (record {
                          from_view = refl;
                          conditions = filters.0 ++ year;
                          own_rows = refl;
                          applied = filters.0;
                          period = year;
                          filters_first = refl;
                          filtered = fit.1;
                          conditions_fit = All-append _ filters.0 year fit.0.0 bounded.0;
                          bounded =
                              Bounded-append dataset.default_period_column filters.1 _ filters.0
                                year fit.0.1 bounded.1;
                          selected_fit = kept.0.fits;
                          grouped =
                              groups-Grouped dims spec.columns known.1 spec.aggregates chosen.0
                                kept.0.plains;
                          distinct = kept.0.distinct;
                          labelled = kept.0.aligned;
                          ordered = ordered.0;
                          in_order = ordered.1;
                        })))))))))

  -- A report that compiles reads one dataset of the catalogue, under the key that it names. Its first
  -- condition keeps the tenant's rows, and each of the others names a column of the dataset, an
  -- operator of that column's type and values of that type. Each filter of the report is one of these
  -- conditions, with its operator and column. A dataset with a period has a filter on
  -- it, or the condition that it lies in the current year. Every selected column or aggregate is one
  -- of the dataset, with a function of its type, under keys that differ and that the results carry in
  -- the same order; with aggregates a column is grouped by. The order is not empty and by selected
  -- expressions. A report that does not compile fails with an error of the business.
  pub compile_query-IsSafe :
      Settles
        (λ (r : CompiledReport (V a)).
          (dataset : Dataset) × Elem dataset datasets
          × (dataset.key ≡ spec.dataset)
          × IsSafe a spec tenant_id today dataset r)
        (compile_query a spec tenant_id today)
  unfolding compile_query get_dataset
  compile_query-IsSafe = Settles-bind (or_error-Settles _ _ tt) (λ dataset found.
      Settles-map
        (compile_dataset-IsSafe dataset (
          All-find (λ d. PeriodFits d d.default_period_column) _ datasets dataset
            datasets-PeriodFits found))
        (λ r safe. (
          dataset,
          find-Elem _ datasets dataset found,
          str_eq→eq dataset.key spec.dataset (find-holds _ datasets dataset found),
          safe,
        )))
