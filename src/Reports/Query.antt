-- ===== src/Reports/Query.antt =====
-- backend/app/schemas/reports.py, and what a report becomes: a value is a text, a date, a truth value,
-- or a number or a time, which are opaque.
use hrus.Base.{ℕ, Bool, Option, List, String}
use hrus.Calendar.{Date}
use hrus.Reports.{ColumnType, ColumnDef, Dataset, FilterOp, AggregateFunc}

-- A value that fits its column.
pub data Value (Number Time : Type 0) : Type 0 where
  text : String → Value Number Time
  number : Number → Value Number Time
  day : Date → Value Number Time
  datetime : Time → Value Number Time
  boolean : Bool → Value Number Time

-- pydantic's validation of a raw value, in `VALUE_ADAPTERS`.
pub record Adapters (Number Time : Type 0) : Type 1 where
  pub Raw : Type 0
  pub as_text : Raw → Option String
  pub as_number : Raw → Option Number
  pub as_date : Raw → Option Date
  pub as_datetime : Raw → Option Time
  pub as_boolean : Raw → Option Bool

-- The `value` of a filter: missing, a list, or something else. An element may be None.
pub data FilterValue (Raw : Type 0) : Type 0 where
  absent : FilterValue Raw
  one : Raw → FilterValue Raw
  many : List (Option Raw) → FilterValue Raw

pub record ReportFilter (Raw : Type 0) : Type 0 where
  pub column : String
  pub op : FilterOp
  pub value : FilterValue Raw

pub record ReportAggregate : Type 0 where
  pub func : AggregateFunc
  pub column : Option String

pub record ReportSort : Type 0 where
  pub column : String
  pub descending : Bool

pub record ReportQuery (Raw : Type 0) : Type 0 where
  pub dataset : String
  pub columns : List String
  pub filters : List (ReportFilter Raw)
  pub aggregates : List ReportAggregate
  pub sort : List ReportSort
  pub limit : ℕ

pub data Cond (V : Type 0) : Type 0 where
  of_tenant : ℕ → Cond V
  null not_null : String → Cond V
  range : String → V → V → Cond V
  among not_among : String → List V → Cond V
  ilike : String → List ℕ → Cond V
  compare : FilterOp → String → V → Cond V

pub data Select : Type 0 where
  plain : String → Select
  count_rows : Select
  aggregate : AggregateFunc → String → Select

pub record Statement (V : Type 0) : Type 0 where
  pub view : String
  pub conditions : List (Cond V)
  pub selected : List (String × Select)
  pub group_by : List String
  pub order_by : List (Select × Bool)

-- `CompiledReport`, without the texts; `columns` are the keys and types of the results.
pub record CompiledReport (V : Type 0) : Type 0 where
  pub dataset : Dataset
  pub stmt : Statement V
  pub columns : List (String × ColumnType)
  pub sources : List (Option ColumnDef)
