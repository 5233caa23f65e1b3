-- ===== src/Reports/Whole.antt =====
-- A preview is cut at its limit and says so; an export is whole, or refused.
use hrus.Base.{ℕ, ◌≡◌, none, some, Option, length}
use hrus.Calendar.{Date}
use hrus.Errors.{Result, ok, err, unexpected}
use hrus.Models.Auth.{AccessClaims}
use hrus.Reports.Query.{Adapters, ReportQuery, CompiledReport}
use hrus.Reports.Conditions.{V}
use hrus.Reports.Compile.{compile_query}
use hrus.Reports.Service.{
  Engine, ExportFormat, ExportFile, ReportTemplate, ReportDb, audited, template_id,
}

module _ {N T : Type 0} {a : Adapters N T} (e : Engine a) (c : CompiledReport (V a)) where
  module _ (today : ℕ → Date) (actor : AccessClaims) (spec : ReportQuery a.Raw)
      (format : ExportFormat) (template : Option (ReportTemplate e.Json)) (db : ReportDb e.Json)
      (compiles : compile_query a spec actor.tenant_id (today actor.tenant_id) ≡ ok c) where
    -- A file that is written comes back with an audit row; a writer's exception leaves neither.
    abbrev pub exported : Option e.files.Bytes → Result (ExportFile e × ReportDb e.Json)
    exported none = err unexpected
    exported (some content) = ok (
      record {
        content = content;
        dataset = c.dataset.key;
        format = format;
        today = today actor.tenant_id;
      },
      audited e actor (template_id e template) (length (e.rows c.stmt)) db,
    )
