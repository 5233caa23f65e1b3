-- ===== src/Reports/Compile.antt =====
-- backend/app/reports/query.py: from a report's specification to a statement. The conversions of
-- pydantic are a parameter. A statement lists its conditions, columns, groups and order.
use hrus.Base.{
  ℕ, Bool, true, false, not, ◌&&◌, ◌||◌, Option, none, some, List, [], ◌∷◌, ◌++◌, map, String,
  str_eq, if◌then◌else◌, find, any,
}
use Prim.Native.String.{◌++◌ as ◌+++◌}
use hrus.Calendar.{Date}
use hrus.Calendar
use hrus.Errors.{Code, Result, ok, err, unexpected, rule_violation}
use hrus.Errors.Chain.{◌>>=◌, ◌>>◌, or_error, error_if}
use hrus.Reports.{
  ColumnType, ColumnDef, Dataset, AggregateFunc, aggregate_allowed, column, get_dataset,
}
use hrus.Reports.Query.{
  day, Adapters, ReportAggregate, ReportSort, ReportQuery, Cond, of_tenant, range, Select, plain,
  count_rows, aggregate, CompiledReport,
}
use hrus.Reports.Catalog.{datasets}
use hrus.Reports.Conditions.{V, add_filters}

abbrev pub func_name : AggregateFunc → String
func_name AggregateFunc.count = "count"
func_name AggregateFunc.count_distinct = "count_distinct"
func_name AggregateFunc.sum = "sum"
func_name AggregateFunc.avg = "avg"
func_name AggregateFunc.min = "min"
func_name AggregateFunc.max = "max"

-- `len(set(keys)) != len(keys)`
unfoldable pub has_duplicates : List String → Bool
has_duplicates [] = false
has_duplicates (k ∷ ks) = any (str_eq k) ks || has_duplicates ks

unfoldable pub columns_of : Dataset → List String → Result (List ColumnDef)
columns_of dataset [] = ok []
columns_of dataset (k ∷ ks) = do c ← column dataset k; cs ← columns_of dataset ks; ok (c ∷ cs)

abbrev pub is_count : AggregateFunc → Bool
is_count AggregateFunc.count = true
is_count _ = false

-- `col.type if agg.func in ("min", "max") else T.NUMBER`
abbrev pub kind_of : AggregateFunc → ColumnType → ColumnType
kind_of AggregateFunc.min type = type
kind_of AggregateFunc.max type = type
kind_of _ type = ColumnType.number

-- The key, the expression and the type of an aggregate.
unfoldable pub aggregate_of :
    Dataset → AggregateFunc → Option String → Result (String × Select × ColumnType)
aggregate_of dataset f none = do
  error_if (not (is_count f)) (rule_violation Code.report_invalid_aggregate)
  ok ("count", count_rows, ColumnType.number)
aggregate_of dataset f (some key) = do
  col ← column dataset key
  error_if (not (aggregate_allowed col.type f)) (rule_violation Code.report_invalid_aggregate)
  ok (func_name f +++ "_" +++ col.key, aggregate f col.key, kind_of f col.type)

abbrev pub Selected : Type 0
Selected = List (String × Select)

-- `selected.get(key)`
abbrev pub of_key : String → String × Select → Bool
of_key key (k, e) = str_eq k key

-- The loop over the aggregates: the dictionary of the expressions, and the types of the results.
unfoldable pub add_aggregates :
    Dataset
    → List ReportAggregate
    → Selected
    → List (String × ColumnType)
    → Result (Selected × List (String × ColumnType))
add_aggregates dataset [] selected columns = ok (selected, columns)
add_aggregates dataset (a ∷ rest) selected columns = do
  (key, e, kind) ← aggregate_of dataset a.func a.column
  error_if (any (of_key key) selected) (rule_violation Code.report_duplicate_column)
  add_aggregates dataset rest (selected ++ (key, e) ∷ []) (columns ++ (key, kind) ∷ [])

unfoldable pub order_of : Selected → List ReportSort → Result (List (Select × Bool))
order_of selected [] = ok []
order_of selected (s ∷ rest) = do
  (key, e) ← or_error (rule_violation Code.report_invalid_sort) (find (of_key s.column) selected)
  others ← order_of selected rest
  ok ((e, s.descending) ∷ others)

-- Without a sort the first expression, ascending; `next` fails on an empty dictionary.
unfoldable pub or_first : Selected → List (Select × Bool) → Result (List (Select × Bool))
or_first [] [] = err unexpected
or_first ((key, e) ∷ _) [] = ok ((e, false) ∷ [])
or_first selected (o ∷ os) = ok (o ∷ os)

-- `if spec.aggregates and dims`
abbrev pub groups : List ReportAggregate → List ColumnDef → List String
groups [] dims = []
groups (_ ∷ _) dims = map (λ (c : ColumnDef). c.key) dims

abbrev pub is_empty : {A : Type 0} → List A → Bool
is_empty [] = true
is_empty (_ ∷ _) = false

abbrev pub dim_select : ColumnDef → String × Select
dim_select c = (c.key, plain c.key)

abbrev pub dim_column : ColumnDef → String × ColumnType
dim_column c = (c.key, c.type)

module _ {Number Time : Type 0} (a : Adapters Number Time) where
  abbrev pub year_of : String → ℕ → Cond (V a)
  year_of key year = range key (day (Calendar.date year 1 1)) (day (Calendar.date year 12 31))

  -- The current year, for a dataset with a period that no filter names.
  unfoldable pub default_period :
      Dataset → Option String → List String → Date → Result (List (Cond (V a)))
  default_period dataset none filtered today = ok []
  default_period dataset (some period) filtered today =
      if any (str_eq period) filtered
      then ok []
      else do col ← column dataset period; ok (year_of period today.year ∷ [])

  unfoldable pub compile_dataset :
      ReportQuery a.Raw → ℕ → Date → Dataset → Result (CompiledReport (V a))
  compile_dataset spec tenant_id today dataset = do
    error_if (is_empty spec.columns && is_empty spec.aggregates)
        (rule_violation Code.report_no_columns)
    error_if (has_duplicates spec.columns) (rule_violation Code.report_duplicate_column)
    dims ← columns_of dataset spec.columns
    (conditions, filtered) ← add_filters a dataset spec.filters
    period ← default_period dataset dataset.default_period_column filtered today
    (selected, columns) ←
        add_aggregates dataset spec.aggregates (map dim_select dims) (map dim_column dims)
    sorted ← order_of selected spec.sort
    order ← or_first selected sorted
    ok (record {
      dataset = dataset;
      stmt = record {
        view = dataset.view;
        conditions = of_tenant tenant_id ∷ conditions ++ period;
        selected = selected;
        group_by = groups spec.aggregates dims;
        order_by = order;
      };
      columns = columns;
      sources = map some dims ++ map (λ _. none) spec.aggregates;
    })

  unfoldable pub compile_query : ReportQuery a.Raw → ℕ → Date → Result (CompiledReport (V a))
  compile_query spec tenant_id today =
      get_dataset datasets spec.dataset >>= compile_dataset spec tenant_id today
