-- ===== src/Reports/Fits.antt =====
-- What a statement may hold: conditions and expressions over the catalogue's columns, with values
-- of the columns' types.
use hrus.Base.{
  str_eq→eq, ◌≡◌, Bool, true, false, Option, none, some, List, String, str_eq, find, any, All,
  find-holds, sym,
}
use mathlib.Core.Path.{subst}
use hrus.Errors.Chain.{Settles, or_error-Settles, Settles-map}
use hrus.Reports.{ColumnType, ColumnDef, Dataset, FilterOp, op_allowed, aggregate_allowed, column}
use hrus.Reports.Query.{
  Value, text, number, day, datetime, boolean, Cond, of_tenant, null, not_null, range, among,
  not_among, ilike, compare, Select, plain, count_rows, aggregate,
}

-- The dataset has the column.
abbrev pub IsColumn : Dataset → String → ColumnDef → Type 0
IsColumn dataset key col =
    (find (λ (c : ColumnDef). str_eq c.key key) dataset.columns ≡ some col) × (col.key ≡ key)

module _ {Number Time : Type 0} where
  -- The value has the column's type, and is one of the choices of an enum.
  unfoldable pub value_fits : ColumnType → List String → Value Number Time → Bool
  value_fits ColumnType.text values (text s) = true
  value_fits ColumnType.enum values (text s) = any (λ v. str_eq v s) values
  value_fits ColumnType.number values (number n) = true
  value_fits ColumnType.date values (day d) = true
  value_fits ColumnType.datetime values (datetime t) = true
  value_fits ColumnType.boolean values (boolean b) = true
  value_fits _ values _ = false

  abbrev pub OfColumn : ColumnDef → Value Number Time → Type 0
  OfColumn col v = value_fits col.type col.enum_values v ≡ true

  -- A filter's condition: a column of the dataset, an operator of its type, values that fit.
  abbrev pub CondFits : Dataset → Cond (Value Number Time) → Type 0
  CondFits dataset (of_tenant t) = ⊥
  CondFits dataset (null key) = (col : ColumnDef) × IsColumn dataset key col
  CondFits dataset (not_null key) = (col : ColumnDef) × IsColumn dataset key col
  CondFits dataset (range key lo hi) =
      (col : ColumnDef) × IsColumn dataset key col
      × (op_allowed col.type FilterOp.between ≡ true)
      × OfColumn col lo
      × OfColumn col hi
  CondFits dataset (among key vs) =
      (col : ColumnDef) × IsColumn dataset key col
      × (op_allowed col.type FilterOp.in_list ≡ true)
      × All (OfColumn col) vs
  CondFits dataset (not_among key vs) =
      (col : ColumnDef) × IsColumn dataset key col
      × (op_allowed col.type FilterOp.not_in ≡ true)
      × All (OfColumn col) vs
  CondFits dataset (ilike key pattern) =
      (col : ColumnDef) × IsColumn dataset key col × (col.type ≡ ColumnType.text)
  CondFits dataset (compare op key v) =
      (col : ColumnDef) × IsColumn dataset key col
      × (op_allowed col.type op ≡ true)
      × OfColumn col v

-- An expression over a column of the dataset, with a function of its type.
abbrev pub SelectFits : Dataset → Select → Type 0
SelectFits dataset (plain key) = (col : ColumnDef) × IsColumn dataset key col
SelectFits dataset count_rows = Unit
SelectFits dataset (aggregate f key) =
    (col : ColumnDef) × IsColumn dataset key col × (aggregate_allowed col.type f ≡ true)

pub column-Settles :
    (dataset : Dataset) (key : String) → Settles (IsColumn dataset key) (column dataset key)
unfolding column
column-Settles dataset key =
    Settles-map (or_error-Settles _ _ tt)
      (λ c e. (e, str_eq→eq c.key key (find-holds _ dataset.columns c e)))

-- The column under its own key.
pub IsColumn-own :
    (dataset : Dataset) (key : String) (col : ColumnDef)
    → IsColumn dataset key col
    → IsColumn dataset col.key col
IsColumn-own dataset key col known = subst (λ k. IsColumn dataset k col) (sym known.1) known

-- The period of a dataset is one of its dates.
abbrev pub PeriodFits : Dataset → Option String → Type 0
PeriodFits dataset none = Unit
PeriodFits dataset (some p) =
    (col : ColumnDef) × IsColumn dataset p col × (col.type ≡ ColumnType.date)
