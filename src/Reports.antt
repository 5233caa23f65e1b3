-- ===== src/Reports.antt =====
-- backend/app/reports: the catalogue of datasets, and the compiler from a report's specification to
-- a statement. Labels, descriptions and the text of the definition are left out; a date, a number or
-- a time of a filter is opaque.
pub mod Catalog
pub mod Like
pub mod Query
pub mod Conditions
pub mod Compile
pub mod Fits
pub mod Filters
pub mod Selection
pub mod Dims
pub mod Applied
pub mod Safe
pub mod Export
pub mod Inert
pub mod Service
pub mod Whole
pub mod Templates
pub mod Retry
use hrus.Base.{Bool, true, false, ◌||◌, Option, List, String, str_eq, find}
use hrus.Errors.{Code, Result, not_found, rule_violation}
use hrus.Errors.Chain.{or_error}

pub data ColumnType : Type 0 where
  text enum number date datetime boolean : ColumnType

pub record ColumnDef : Type 0 where
  pub key : String
  pub type : ColumnType
  pub enum_values : List String

pub record Dataset : Type 0 where
  pub key : String
  pub view : String
  pub columns : List ColumnDef
  pub default_period_column : Option String

pub data FilterOp : Type 0 where
  eq ne gt gte lt lte between in_list not_in contains starts_with is_null is_not_null : FilterOp

pub data AggregateFunc : Type 0 where
  count count_distinct sum avg min max : AggregateFunc

abbrev is_equality : FilterOp → Bool
is_equality FilterOp.eq = true
is_equality FilterOp.ne = true
is_equality _ = false

abbrev is_order : FilterOp → Bool
is_order FilterOp.gt = true
is_order FilterOp.gte = true
is_order FilterOp.lt = true
is_order FilterOp.lte = true
is_order FilterOp.between = true
is_order _ = false

abbrev is_membership : FilterOp → Bool
is_membership FilterOp.in_list = true
is_membership FilterOp.not_in = true
is_membership _ = false

abbrev is_search : FilterOp → Bool
is_search FilterOp.contains = true
is_search FilterOp.starts_with = true
is_search _ = false

-- `NULL_OPS`
abbrev pub is_null_op : FilterOp → Bool
is_null_op FilterOp.is_null = true
is_null_op FilterOp.is_not_null = true
is_null_op _ = false

-- `OPS_BY_TYPE`
unfoldable pub op_allowed : ColumnType → FilterOp → Bool
op_allowed ColumnType.text op = is_equality op || is_membership op || is_search op || is_null_op op
op_allowed ColumnType.enum op = is_equality op || is_membership op || is_null_op op
op_allowed ColumnType.number op = is_equality op || is_order op || is_membership op || is_null_op op
op_allowed ColumnType.date op = is_equality op || is_order op || is_null_op op
op_allowed ColumnType.datetime op = is_order op || is_null_op op
op_allowed ColumnType.boolean FilterOp.eq = true
op_allowed ColumnType.boolean op = is_null_op op

abbrev is_counting : AggregateFunc → Bool
is_counting AggregateFunc.count = true
is_counting AggregateFunc.count_distinct = true
is_counting _ = false

abbrev is_extreme : AggregateFunc → Bool
is_extreme AggregateFunc.min = true
is_extreme AggregateFunc.max = true
is_extreme _ = false

-- `AGGREGATES_BY_TYPE`
unfoldable pub aggregate_allowed : ColumnType → AggregateFunc → Bool
aggregate_allowed ColumnType.number f = true
aggregate_allowed ColumnType.date f = is_counting f || is_extreme f
aggregate_allowed ColumnType.datetime f = is_counting f || is_extreme f
aggregate_allowed _ f = is_counting f

-- `Dataset.column`
unfoldable pub column : Dataset → String → Result ColumnDef
column dataset key =
    or_error (rule_violation Code.report_unknown_column)
      (find (λ (c : ColumnDef). str_eq c.key key) dataset.columns)

unfoldable pub get_dataset : List Dataset → String → Result Dataset
get_dataset datasets key = or_error not_found (find (λ (d : Dataset). str_eq d.key key) datasets)
