-- ===== src/Reports/Service.antt =====
-- backend/app/services/reports.py: a report is run and exported. The rows of a statement, in its
-- order, are a parameter, and so is which statements run out of time.
use hrus.Base.{
  ℕ, ◌+◌, Bool, Option, none, some, List, [], ◌∷◌, ◌++◌, String, ltb, length, take, map,
}
use hrus.Calendar.{Date}
use hrus.Errors.{Code, Result, ok, unexpected, rule_violation}
use hrus.Errors.Chain.{◌>>=◌, ◌>>◌, error_if, or_error}
use hrus.Models.Auth.{AccessClaims}
use hrus.Reports.{ColumnType}
use hrus.Reports.Query.{
  Value, text, number, day, datetime, boolean, Adapters, ReportQuery, Statement, CompiledReport,
}
use hrus.Reports.Conditions.{V}
use hrus.Reports.Compile.{compile_query}
use hrus.Reports.Export.{Files, Texts, Shown, blank, words, amount, truth, to_csv, to_xlsx}

-- A row of a result: a value or null for each expression.
abbrev pub Row : Type 0 → Type 0
Row V = List (Option V)

-- The database, and the JSON of a stored report: `model_dump` and `model_validate`.
pub record Engine {Number Time : Type 0} (a : Adapters Number Time) : Type 1 where
  pub rows : Statement (V a) → List (Row (V a))
  pub times_out : Statement (V a) → ℕ → Bool
  pub Json : Type 0
  pub dump : ReportQuery a.Raw → Json
  pub load : Json → Option (ReportQuery a.Raw)
  pub same_json : Json → Json → Bool
  pub files : Files Number Time
  pub texts : Texts Number Time

-- `to_json_value`, where a date or a time is its `isoformat`.
unfoldable pub to_json_value :
    {Number Time : Type 0} → Files Number Time → Option (Value Number Time) → Shown Number Time
to_json_value files none = blank
to_json_value files (some (text s)) = words s
to_json_value files (some (number n)) = amount (files.int_or_float n)
to_json_value files (some (day d)) = words (files.date_iso d)
to_json_value files (some (datetime t)) = words (files.time_iso t)
to_json_value files (some (boolean b)) = truth b

abbrev pub export_limit : ℕ
export_limit = 10000

pub data ExportFormat : Type 0 where
  csv xlsx : ExportFormat

-- A row of the audit log, with the number of rows of an export.
pub record ReportAudit : Type 0 where
  pub tenant_id : ℕ
  pub actor_user_id : ℕ
  pub action : String
  pub entity_id : Option ℕ
  pub rows : Option ℕ

pub record ReportTemplate (Json : Type 0) : Type 0 where
  pub id : ℕ
  pub tenant_id : ℕ
  pub name : String
  pub description : Option String
  pub query : Json
  pub created_by_user_id : ℕ
  pub updated_by_user_id : Option ℕ
  pub idempotency_key : Option String

pub record ReportDb (Json : Type 0) : Type 0 where
  pub templates : List (ReportTemplate Json)
  pub audit_log : List ReportAudit
  pub next_id : ℕ

module _ {Number Time : Type 0} {a : Adapters Number Time} (e : Engine a) where
  pub record ReportResult : Type 0 where
    pub columns : List (String × ColumnType)
    pub rows : List (List (Shown Number Time))
    pub row_count : ℕ
    pub truncated : Bool

  pub record ExportFile : Type 0 where
    pub content : e.files.Bytes
    pub dataset : String
    pub format : ExportFormat
    pub today : Date

  -- `_fetch`: one row more than the limit tells whether the result is cut.
  unfoldable pub fetch : CompiledReport (V a) → ℕ → Result (List (Row (V a)) × Bool)
  fetch compiled limit = do
    error_if (e.times_out compiled.stmt (limit + 1)) (rule_violation Code.report_timeout)
    let rows = take (limit + 1) (e.rows compiled.stmt)
    ok (take limit rows, ltb limit (length rows))

  unfoldable pub run_query : (ℕ → Date) → AccessClaims → ReportQuery a.Raw → Result ReportResult
  run_query today actor spec = do
    compiled ← compile_query a spec actor.tenant_id (today actor.tenant_id)
    (rows, truncated) ← fetch compiled spec.limit
    ok (record {
      columns = compiled.columns;
      rows = map (map (to_json_value e.files)) rows;
      row_count = length rows;
      truncated = truncated;
    })

  abbrev pub audited : AccessClaims → Option ℕ → ℕ → ReportDb e.Json → ReportDb e.Json
  audited actor template_id rows db = record db {
    audit_log =
        db.audit_log
        ++ record {
          tenant_id = actor.tenant_id;
          actor_user_id = actor.user_id;
          action = "report.export";
          entity_id = template_id;
          rows = some rows;
        }
          ∷ [];
  }

  abbrev pub template_id : Option (ReportTemplate e.Json) → Option ℕ
  template_id none = none
  template_id (some t) = some t.id

  abbrev title_of : CompiledReport (V a) → Option (ReportTemplate e.Json) → String
  title_of compiled none = e.texts.dataset_label compiled
  title_of compiled (some t) = t.name

  unfoldable pub content_of :
      ExportFormat
      → Option (ReportTemplate e.Json)
      → CompiledReport (V a)
      → List (Row (V a))
      → Option e.files.Bytes
  content_of ExportFormat.csv template compiled rows = to_csv e.files e.texts compiled rows
  content_of ExportFormat.xlsx template compiled rows =
      to_xlsx e.files e.texts (title_of compiled template) compiled rows

  -- A result of more than `EXPORT_LIMIT` rows is refused, not cut. An exception of the file's writer
  -- is not caught.
  unfoldable pub export_report :
      (ℕ → Date)
      → AccessClaims
      → ReportQuery a.Raw
      → ExportFormat
      → Option (ReportTemplate e.Json)
      → ReportDb e.Json
      → Result (ExportFile × ReportDb e.Json)
  export_report today actor spec format template db = do
    compiled ← compile_query a spec actor.tenant_id (today actor.tenant_id)
    (rows, truncated) ← fetch compiled export_limit
    error_if truncated (rule_violation Code.report_too_large)
    content ← or_error unexpected (content_of format template compiled rows)
    ok (
      record {
        content = content;
        dataset = compiled.dataset.key;
        format = format;
        today = today actor.tenant_id;
      },
      audited actor (template_id template) (length rows) db,
    )
