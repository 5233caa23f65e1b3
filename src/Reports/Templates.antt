-- ===== src/Reports/Templates.antt =====
-- backend/app/services/reports.py: the templates of a tenant's reports. The unique indexes of the
-- table are checked by the queries before an insertion; the model runs one call after another.
use hrus.Base.{
  ℕ, suc, Bool, true, false, not, ◌&&◌, Option, none, some, [], ◌∷◌, ◌++◌, String, str_eq, ◌==◌,
  if◌then◌else◌, find, any, filter, update_first,
}
use hrus.Errors.{Code, not_found, unexpected, conflict, rule_violation}
use hrus.Tx.{Tx, pure, raise, gets, modify, or_raise, raise_if, lift, ◌>>=◌, ◌>>◌}
use hrus.Models.Auth.{AccessClaims}
use hrus.Db.{Env}
use hrus.Reports.Query.{Adapters, ReportQuery, CompiledReport}
use hrus.Reports.Conditions.{V}
use hrus.Reports.Compile.{compile_query}
use hrus.Reports.Service.{
  Engine, ReportTemplate, ReportDb, ReportResult, ExportFormat, ExportFile, run_query,
  export_report,
}

module _ {Number Time : Type 0} {a : Adapters Number Time} (e : Engine a) where
  abbrev pub Template : Type 0
  Template = ReportTemplate e.Json

  abbrev pub Templates : Type 0
  Templates = ReportDb e.Json

  pub record ReportTemplateRead : Type 0 where
    pub id : ℕ
    pub name : String
    pub description : Option String
    pub query : ReportQuery a.Raw
    pub created_by_user_id : ℕ
    pub updated_by_user_id : Option ℕ

  pub record ReportTemplateCreate : Type 0 where
    pub name : String
    pub description : Option String
    pub query : ReportQuery a.Raw

  -- The description is sent, perhaps as null, or not sent.
  pub record ReportTemplateUpdate : Type 0 where
    pub name : Option String
    pub description : Option (Option String)
    pub query : Option (ReportQuery a.Raw)

  abbrev pub read_as : Template → Option (ReportQuery a.Raw) → Tx Templates ReportTemplateRead
  read_as t none = raise unexpected
  read_as t (some query) = pure (record {
    id = t.id;
    name = t.name;
    description = t.description;
    query = query;
    created_by_user_id = t.created_by_user_id;
    updated_by_user_id = t.updated_by_user_id;
  })

  -- `_read`: pydantic validates the stored query again, and nothing catches its error.
  unfoldable pub read : Template → Tx Templates ReportTemplateRead
  read t = read_as t (e.load t.query)

  unfoldable pub is_template : ℕ → ℕ → Template → Bool
  is_template tenant_id id t = t.tenant_id == tenant_id && t.id == id

  -- `_get`
  unfoldable pub get : ℕ → ℕ → Tx Templates Template
  get tenant_id id = do
    found ← gets (λ db. find (is_template tenant_id id) db.templates)
    or_raise not_found found

  -- `_stored_query`
  unfoldable pub stored_query : Template → Tx Templates (ReportQuery a.Raw)
  stored_query t = or_raise (rule_violation Code.report_template_invalid) (e.load t.query)

  unfoldable pub is_named : ℕ → String → Template → Bool
  is_named tenant_id name t = t.tenant_id == tenant_id && str_eq t.name name

  abbrev other_than : Option ℕ → Template → Bool
  other_than none t = true
  other_than (some id) t = not (t.id == id)

  unfoldable pub ensure_name_free : ℕ → String → Option ℕ → Tx Templates (Unit {0})
  ensure_name_free tenant_id name exclude = do
    taken ← gets (λ db. any (λ t. is_named tenant_id name t && other_than exclude t) db.templates)
    raise_if taken (conflict Code.report_template_name_taken)

  unfoldable pub audit : AccessClaims → String → ℕ → Tx Templates (Unit {0})
  audit actor action id = modify (λ db. record db {
    audit_log =
        db.audit_log
        ++ record {
          tenant_id = actor.tenant_id;
          actor_user_id = actor.user_id;
          action = action;
          entity_id = some id;
          rows = none;
        }
          ∷ [];
  })

  abbrev compile : Env → ℕ → ReportQuery a.Raw → Tx Templates (CompiledReport (V a))
  compile env tenant_id query = lift (compile_query a query tenant_id (env.today tenant_id))

  unfoldable pub get_template : ℕ → ℕ → Tx Templates ReportTemplateRead
  get_template tenant_id id = do template ← get tenant_id id; read template

  abbrev pub holds_key : Option String → String → Bool
  holds_key none key = false
  holds_key (some k) key = str_eq k key

  unfoldable pub has_key : ℕ → String → Template → Bool
  has_key tenant_id key t = t.tenant_id == tenant_id && holds_key t.idempotency_key key

  abbrev pub new_template : Env → AccessClaims → ReportTemplateCreate → Option String → ℕ → Template
  new_template env actor form key id = record {
    id = id;
    tenant_id = actor.tenant_id;
    name = env.strip form.name;
    description = form.description;
    query = e.dump form.query;
    created_by_user_id = actor.user_id;
    updated_by_user_id = none;
    idempotency_key = key;
  }

  abbrev pub add_template : Template → Templates → Templates
  add_template t db = record db { templates = db.templates ++ t ∷ []; next_id = suc db.next_id }

  -- The rest of `create_template`, where no template has the key.
  unfoldable pub create_new :
      Env → AccessClaims → ReportTemplateCreate → Option String → Tx Templates ReportTemplateRead
  create_new env actor form key = do
    compile env actor.tenant_id form.query
    ensure_name_free actor.tenant_id (env.strip form.name) none
    id ← gets (λ db. db.next_id)
    let template = new_template env actor form key id
    modify (add_template template)
    result ← read template
    audit actor "report_template.create" id
    pure result

  abbrev pub or_existing :
      Tx Templates ReportTemplateRead → Option Template → Tx Templates ReportTemplateRead
  or_existing create none = create
  or_existing create (some existing) = read existing

  -- `if idempotency_key`
  abbrev pub sent : Option String → Option String
  sent none = none
  sent (some key) = if str_eq key "" then none else some key

  abbrev pub with_key : ℕ → Option String → Templates → Option Template
  with_key tenant_id none db = none
  with_key tenant_id (some key) db = find (has_key tenant_id key) db.templates

  unfoldable pub create_template :
      Env → AccessClaims → ReportTemplateCreate → Option String → Tx Templates ReportTemplateRead
  create_template env actor form key = do
    existing ← gets (with_key actor.tenant_id (sent key))
    or_existing (create_new env actor form key) existing

  abbrev pub ensure_new_name : Env → Template → Option String → Tx Templates (Unit {0})
  ensure_new_name env t none = pure tt
  ensure_new_name env t (some name) = ensure_name_free t.tenant_id (env.strip name) (some t.id)

  abbrev pub ensure_compiles : Env → ℕ → Option (ReportQuery a.Raw) → Tx Templates (Unit {0})
  ensure_compiles env tenant_id none = pure tt
  ensure_compiles env tenant_id (some query) = do compile env tenant_id query; pure tt

  abbrev stripped_or : Env → Option String → String → String
  stripped_or env none old = old
  stripped_or env (some name) old = env.strip name

  abbrev sent_or : {A : Type 0} → Option A → A → A
  sent_or none old = old
  sent_or (some new) old = new

  abbrev dumped_or : Option (ReportQuery a.Raw) → e.Json → e.Json
  dumped_or none old = old
  dumped_or (some query) old = e.dump query

  abbrev pub changed : Env → AccessClaims → ReportTemplateUpdate → Template → Template
  changed env actor form t = record t {
    name = stripped_or env form.name t.name;
    description = sent_or form.description t.description;
    query = dumped_or form.query t.query;
    updated_by_user_id = some actor.user_id;
  }

  abbrev same_text : Option String → Option String → Bool
  same_text none none = true
  same_text (some s) (some t) = str_eq s t
  same_text _ _ = false

  -- `after == before`, of the name, the description and the query
  abbrev pub same_fields : ReportTemplateRead → ReportTemplateRead → Bool
  same_fields r s =
      str_eq r.name s.name
      && same_text r.description s.description
      && e.same_json (e.dump r.query) (e.dump s.query)

  unfoldable pub update_template :
      Env → AccessClaims → ℕ → ReportTemplateUpdate → Tx Templates ReportTemplateRead
  update_template env actor id form = do
    template ← get actor.tenant_id id
    before ← read template
    ensure_new_name env template form.name
    ensure_compiles env actor.tenant_id form.query
    modify (λ db. record db {
      templates =
          update_first (is_template template.tenant_id template.id) (changed env actor form)
            db.templates;
    })
    after ← read (changed env actor form template)
    if same_fields before after then pure tt else audit actor "report_template.update" id
    pure after

  unfoldable pub delete_template : AccessClaims → ℕ → Tx Templates (Unit {0})
  delete_template actor id = do
    template ← get actor.tenant_id id
    read template
    modify (λ db. record db {
      templates = filter (λ t. not (is_template actor.tenant_id template.id t)) db.templates;
    })
    audit actor "report_template.delete" id

  unfoldable pub run_template : Env → AccessClaims → ℕ → Tx Templates (ReportResult e)
  run_template env actor id = do
    template ← get actor.tenant_id id
    query ← stored_query template
    lift (run_query e env.today actor query)

  abbrev export_of :
      Env → AccessClaims → ExportFormat → Template → ReportQuery a.Raw → Tx Templates (ExportFile e)
  export_of env actor format t query db = export_report e env.today actor query format (some t) db

  unfoldable pub export_template :
      Env → AccessClaims → ℕ → ExportFormat → Tx Templates (ExportFile e)
  export_template env actor id format = do
    template ← get actor.tenant_id id
    query ← stored_query template
    export_of env actor format template query
