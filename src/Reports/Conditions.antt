-- ===== src/Reports/Conditions.antt =====
-- backend/app/reports/query.py, `_coerce` and `_filter_expr`: the condition that a filter becomes.
use hrus.Base.{
  ℕ, Bool, true, false, not, ◌&&◌, Option, none, some, List, [], ◌∷◌, String, str_eq, ltb, leb,
  ◌==◌, if◌then◌else◌, any, length,
}
use hrus.Errors.{Code, Result, ok, err, unexpected, rule_violation}
use hrus.Errors.Chain.{◌>>=◌, ◌>>◌, error_if}
use hrus.Reports.{ColumnType, ColumnDef, Dataset, FilterOp, is_null_op, op_allowed, column}
use hrus.Reports.Query.{
  Value, text, number, day, datetime, boolean, Adapters, FilterValue, one, many, ReportFilter, Cond,
  null, not_null, range, among, not_among, ilike, compare,
}
use hrus.Reports.Like.{codes, contains_pattern, starts_with_pattern}

abbrev pub max_in_values : ℕ
max_in_values = 100

abbrev pub invalid : {A : Type 0} → Code → Result A
invalid code = err (rule_violation code)

abbrev of_length : ℕ → String → Bool
of_length most s = leb 1 (length (codes s)) && leb (length (codes s)) most

abbrev pub short_text : ℕ → Option String → Option String
short_text most none = none
short_text most (some s) = if of_length most s then some s else none

unfoldable pub as_value : {A V : Type 0} → (A → V) → Option A → Result V
as_value f none = invalid Code.report_invalid_value
as_value f (some a) = ok (f a)

-- `coerced not in dict(col.enum_values)`
abbrev pub among_values : List String → Option String → Option String
among_values values none = none
among_values values (some s) = if any (λ v. str_eq v s) values then some s else none

module _ {Number Time : Type 0} (a : Adapters Number Time) where
  abbrev pub V : Type 0
  V = Value Number Time

  -- `VALUE_ADAPTERS[col.type].validate_python(value)`, and the choice of an enum.
  unfoldable pub validate : ColumnType → List String → a.Raw → Result V
  validate ColumnType.text values raw = as_value text (short_text 200 (a.as_text raw))
  validate ColumnType.enum values raw =
      as_value text (among_values values (short_text 64 (a.as_text raw)))
  validate ColumnType.number values raw = as_value number (a.as_number raw)
  validate ColumnType.date values raw = as_value day (a.as_date raw)
  validate ColumnType.datetime values raw = as_value datetime (a.as_datetime raw)
  validate ColumnType.boolean values raw = as_value boolean (a.as_boolean raw)

  -- `_coerce`
  unfoldable pub coerce : ColumnDef → Option a.Raw → Result V
  coerce col none = invalid Code.report_invalid_value
  coerce col (some raw) = validate col.type col.enum_values raw

  unfoldable pub coerce_list : ColumnDef → List (Option a.Raw) → Result (List V)
  coerce_list col [] = ok []
  coerce_list col (v ∷ vs) = do x ← coerce col v; xs ← coerce_list col vs; ok (x ∷ xs)

  abbrev pub single : FilterValue a.Raw → Option a.Raw
  single (one raw) = some raw
  single _ = none

  -- `_escape_like` takes a text only.
  unfoldable pub matching : (List ℕ → List ℕ) → String → V → Result (Cond V)
  matching pattern key (text s) = ok (ilike key (pattern (codes s)))
  matching pattern key _ = err unexpected

  unfoldable pub list_cond : FilterOp → String → List V → Result (Cond V)
  list_cond FilterOp.between key (lo ∷ hi ∷ _) = ok (range key lo hi)
  list_cond FilterOp.between key _ = err unexpected
  list_cond FilterOp.in_list key vs = ok (among key vs)
  list_cond _ key vs = ok (not_among key vs)

  unfoldable pub value_cond : FilterOp → String → V → Result (Cond V)
  value_cond FilterOp.contains key v = matching contains_pattern key v
  value_cond FilterOp.starts_with key v = matching starts_with_pattern key v
  value_cond op key v = ok (compare op key v)

  abbrev pub is_between : FilterOp → Bool
  is_between FilterOp.between = true
  is_between _ = false

  abbrev pub takes_list : FilterOp → Bool
  takes_list FilterOp.between = true
  takes_list FilterOp.in_list = true
  takes_list FilterOp.not_in = true
  takes_list _ = false

  -- A list of values for `in`, `not_in` and `between`.
  unfoldable pub list_filter : ColumnDef → FilterOp → FilterValue a.Raw → Result (Cond V)
  list_filter col op (many (v ∷ vs)) = do
    error_if (is_between op && not (length (v ∷ vs) == 2))
        (rule_violation Code.report_invalid_value)
    error_if (ltb max_in_values (length (v ∷ vs))) (rule_violation Code.report_invalid_value)
    coerced ← coerce_list col (v ∷ vs)
    list_cond op col.key coerced
  list_filter col op _ = invalid Code.report_invalid_value

  -- A list is no value of any column type.
  unfoldable pub value_filter : ColumnDef → FilterOp → FilterValue a.Raw → Result (Cond V)
  value_filter col op value = do v ← coerce col (single value); value_cond op col.key v

  abbrev pub null_cond : FilterOp → String → Cond V
  null_cond FilterOp.is_null key = null key
  null_cond _ key = not_null key

  unfoldable pub checked_filter : ColumnDef → ReportFilter a.Raw → Result (Cond V)
  checked_filter col flt =
      if is_null_op flt.op
      then ok (null_cond flt.op col.key)
      else if takes_list flt.op
      then list_filter col flt.op flt.value
      else value_filter col flt.op flt.value

  -- `_filter_expr`
  unfoldable pub filter_expr : ColumnDef → ReportFilter a.Raw → Result (Cond V)
  filter_expr col flt = do
    error_if (not (op_allowed col.type flt.op)) (rule_violation Code.report_invalid_operator)
    checked_filter col flt

  -- The loop over the filters: the conditions, and `filtered_columns`.
  unfoldable pub add_filters :
      Dataset → List (ReportFilter a.Raw) → Result (List (Cond V) × List String)
  add_filters dataset [] = ok ([], [])
  add_filters dataset (flt ∷ rest) = do
    col ← column dataset flt.column
    expr ← filter_expr col flt
    (conditions, filtered) ← add_filters dataset rest
    ok (expr ∷ conditions, col.key ∷ filtered)
