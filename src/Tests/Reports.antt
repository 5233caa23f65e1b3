-- ===== src/Tests/Reports.antt =====
-- Reports over the organisation units, of a database with one row.
use hrus.Base.{
  ℕ, ◌≡◌, refl, true, false, Option, none, some, List, [], ◌∷◌, String, ◌==◌, if◌then◌else◌, find,
  any, Elem, str_eq,
}
use hrus.Calendar.{Date}
use hrus.Errors.{Code, ok, err, unexpected, rule_violation}
use hrus.Errors.Chain.{◌>>=◌, error_if, or_error, Settles}
use hrus.Reports.{ColumnType, Dataset, FilterOp, column, get_dataset, op_allowed}
use hrus.Reports.Catalog.{datasets, org_units, plain}
use hrus.Reports.Query.{
  Value, text, Adapters, one, ReportQuery, CompiledReport, Select, of_tenant, compare,
}
use hrus.Reports.Conditions.{
  V, add_filters, filter_expr, checked_filter, value_filter, coerce, validate, as_value, value_cond,
}
use hrus.Reports.Compile.{
  compile_query, compile_dataset, columns_of, default_period, add_aggregates, order_of, or_first,
  has_duplicates,
}
use hrus.Reports.Safe.{IsSafe, compile_query-IsSafe}
use hrus.Reports.Service.{Engine, ExportFormat, ReportTemplate, ReportDb}
use hrus.Reports.Export.{Shown, words, Workbook, Files, Texts, is_formula_like, csv_value}
use hrus.Reports.Templates.{
  ReportTemplateCreate, ReportTemplateRead, ReportTemplateUpdate, is_template, create_template,
  create_new, ensure_name_free, is_named, audit, read, has_key, run_template, export_template,
  update_template, get_template, delete_template,
}
use hrus.Reports.Retry.{create_template-retry, invalid_template-stuck}
use hrus.Tests.Rules.{day}
use hrus.Tests.CoreHr.{env, boss, worker}

-- Raw values are texts, and no text is a value of another type.
abbrev adapters : Adapters ℕ ℕ
adapters = record {
  Raw = String;
  as_text = some;
  as_number = λ raw. none;
  as_date = λ raw. none;
  as_datetime = λ raw. none;
  as_boolean = λ raw. none;
}

abbrev spec : ReportQuery String
spec = record {
  dataset = "org_units";
  columns = "code" ∷ [];
  filters = record { column = "name"; op = FilterOp.eq; value = one "Operations" } ∷ [];
  aggregates = [];
  sort = [];
  limit = 5;
}

compile_query-IsSafe_example :
    Settles
      (λ (r : CompiledReport (V adapters)).
        (dataset : Dataset) × Elem dataset datasets
        × (dataset.key ≡ spec.dataset)
        × IsSafe adapters spec 1 (day 2026 4 1) dataset r)
      (compile_query adapters spec 1 (day 2026 4 1))
compile_query-IsSafe_example = compile_query-IsSafe adapters spec 1 (day 2026 4 1)

abbrev compiled : CompiledReport (Value ℕ ℕ)
compiled = record {
  dataset = org_units;
  stmt = record {
    view = "v_org_unit";
    conditions = of_tenant 1 ∷ compare FilterOp.eq "name" (text "Operations") ∷ [];
    selected = ("code", Select.plain "code") ∷ [];
    group_by = [];
    order_by = (Select.plain "code", false) ∷ [];
  };
  columns = ("code", ColumnType.text) ∷ [];
  sources = some (plain "code" ColumnType.text) ∷ [];
}

-- A CSV file is its lines and a sheet its book; a text with a tab is refused in a sheet.
data File : Type 0 where
  csv_file : List (List (Shown ℕ ℕ)) → File
  sheet : Workbook ℕ ℕ → File

abbrev checked : String → Option String
checked s = if str_eq s "\t" then none else some s

abbrev files : Files ℕ ℕ
files = record {
  str_of = λ v. "";
  int_or_float = λ n. n;
  without_zone = λ t. t;
  date_iso = λ d. "";
  time_iso = λ t. "";
  Bytes = File;
  write_csv = csv_file;
  check_string = checked;
  save = sheet;
}

abbrev texts : Texts ℕ ℕ
texts = record {
  column_label = λ c. c.0;
  enum_values = λ c. [];
  dataset_label = λ c. "Units";
  definition = λ c. [];
}

-- Stored queries are the queries, and those of another limit than 5 are not valid any more.
abbrev engine : Engine adapters
engine = record {
  rows = λ stmt. (some (text "OPS") ∷ []) ∷ [];
  times_out = λ stmt limit. false;
  Json = ReportQuery String;
  dump = λ query. query;
  load = λ query. if query.limit == 5 then some query else none;
  same_json = λ a b. true;
  files = files;
  texts = texts;
}

abbrev empty : ReportDb (ReportQuery String)
empty = record { templates = []; audit_log = []; next_id = 40 }

abbrev today : ℕ → Date
today tenant_id = day 2026 4 1

abbrev no_template : Option (ReportTemplate (ReportQuery String))
no_template = none

-- A code that begins as a formula does.
formula_kept_out : csv_value files texts (words "=1+1") ≡ words "'=1+1"
unfolding csv_value is_formula_like any
formula_kept_out = refl

abbrev saving : ReportTemplateCreate engine
saving = record { name = "Units"; description = none; query = spec }

abbrev template : ReportTemplate (ReportQuery String)
template = record {
  id = 40;
  tenant_id = 1;
  name = "Units";
  description = none;
  query = spec;
  created_by_user_id = 51;
  updated_by_user_id = none;
  idempotency_key = some "k1";
}

abbrev saved : ReportDb (ReportQuery String)
saved = record {
  templates = template ∷ [];
  audit_log =
      record {
        tenant_id = 1;
        actor_user_id = 51;
        action = "report_template.create";
        entity_id = some 40;
        rows = none;
      }
      ∷ [];
  next_id = 41;
}

abbrev answer : ReportTemplateRead engine
answer = record {
  id = 40;
  name = "Units";
  description = none;
  query = spec;
  created_by_user_id = 51;
  updated_by_user_id = none;
}

saving-saves : create_template engine env boss saving (some "k1") empty ≡ ok (answer, saved)
unfolding create_template create_new ensure_name_free is_named audit read has_key compile_query
    compile_dataset columns_of add_filters default_period add_aggregates order_of or_first
    has_duplicates filter_expr checked_filter value_filter coerce validate as_value value_cond
    column get_dataset op_allowed ◌>>=◌ error_if or_error find any
saving-saves = refl

-- The worker asks with the same key, under another name.
abbrev again : ReportTemplateCreate engine
again = record { name = "Other"; description = some "again"; query = spec }

create_template-retry_example :
    create_template engine env worker again (some "k1") saved ≡ ok (answer, saved)
create_template-retry_example =
    create_template-retry engine env boss saving "k1" empty env worker again saved answer refl refl
      saving-saves

abbrev stale : ReportTemplate (ReportQuery String)
stale = record template { query = record spec { limit = 9 } }

abbrev holding : ReportDb (ReportQuery String)
holding = record saved { templates = stale ∷ [] }

abbrev repair : ReportTemplateUpdate engine
repair = record { name = none; description = none; query = some spec }

stale-found : find (is_template engine 1 40) holding.templates ≡ some stale
unfolding find is_template
stale-found = refl

invalid_template-stuck_example :
    (run_template engine env boss 40 holding ≡ err (rule_violation Code.report_template_invalid))
    × (export_template engine env boss 40 ExportFormat.csv holding
        ≡ err (rule_violation Code.report_template_invalid))
    × (update_template engine env boss 40 repair holding ≡ err unexpected)
    × (get_template engine 1 40 holding ≡ err unexpected)
    × (delete_template engine boss 40 holding ≡ err unexpected)
invalid_template-stuck_example =
    invalid_template-stuck engine env boss 40 stale holding repair ExportFormat.csv stale-found refl
