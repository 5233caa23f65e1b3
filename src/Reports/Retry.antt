-- ===== src/Reports/Retry.antt =====
-- A template is saved again with the same key, and a template whose stored query is not valid.
use hrus.Base.{
  ℕ, ◌≡◌, refl, ◌∙◌, true, false, Option, none, some, [], ◌∷◌, ◌++◌, String, str_eq, find, arith,
  find-append_none, any, ◌&&◌, Option-cases, inl, inr,
}
use mathlib.Core.Path.{subst}
use text.Mathlib.TextPositions.{eq_refl}
use hrus.Errors.{Code, ok, err, unexpected, conflict, rule_violation}
use hrus.Tx.{
  lift, Yields, Yields-read, Yields-bind, Yields-map, lift-Yields, raise_if, raise_if-Yields,
}
use hrus.Models.Auth.{AccessClaims}
use hrus.Db.{Env}
use hrus.Reports.Query.{Adapters, ReportQuery}
use hrus.Reports.Compile.{compile_query}
use hrus.Reports.Service.{Engine, ExportFormat}
use hrus.Reports.Templates.{
  Template, Templates, ReportTemplateRead, ReportTemplateCreate, ReportTemplateUpdate, read_as,
  read, is_template, get, stored_query, ensure_name_free, is_named, audit, get_template, has_key,
  new_template, add_template, create_new, create_template, update_template, delete_template,
  run_template, export_template,
}

module _ {N T : Type 0} {a : Adapters N T} (e : Engine a) where
  -- A call that was answered so would be answered so again by `t`, the template of the key.
  abbrev Answers : ℕ → String → ReportTemplateRead e → Templates e → Type 0
  Answers tenant_id key r db =
      (t : Template e) × (find (has_key e tenant_id key) db.templates ≡ some t)
      × (read e t db ≡ ok (r, db))

  read-Yields :
      (t : Template e) (db : Templates e)
      → Yields
          (λ r s. (s ≡ db) × ((later : Templates e) → read e t later ≡ ok (r, later)))
          (read e t db)
  unfolding read
  read-Yields t db = go (e.load t.query) refl
    where
      go :
          (o : Option (ReportQuery a.Raw))
          → e.load t.query ≡ o
          → Yields
              (λ r s. (s ≡ db) × ((later : Templates e) → read e t later ≡ ok (r, later)))
              (read_as e t o db)
      go none h = tt
      go (some query) h = (refl, λ later. rw h refl)

  module _ (env : Env) (actor : AccessClaims) (form : ReportTemplateCreate e) (key : String)
      (db : Templates e) where
    has_key-new :
        (id : ℕ)
        → has_key e actor.tenant_id key (new_template e env actor form (some key) id) ≡ true
    unfolding has_key
    has_key-new id = rw (eq_refl key) (ground arith)

    only :
        (id : ℕ)
        → find (has_key e actor.tenant_id key) (new_template e env actor form (some key) id ∷ [])
          ≡ some (new_template e env actor form (some key) id)
    unfolding find
    only id = rw (has_key-new id) refl

    free-Yields :
        (name : String)
        → Yields (λ _ s. (s ≡ db) × Unit {0}) (ensure_name_free e actor.tenant_id name none db)
    unfolding ensure_name_free
    free-Yields name =
        let taken = any (λ t. is_named e actor.tenant_id name t && true) db.templates in
        Yields-map (λ _ s. (s ≡ db) × (taken ≡ false)) (λ _ s. (s ≡ db) × Unit {0})
          (raise_if taken (conflict Code.report_template_name_taken) db) (λ _ s h. (h.0, tt))
          (raise_if-Yields taken _ db)

    create_new-Answers :
        find (has_key e actor.tenant_id key) db.templates ≡ none
        → Yields (Answers actor.tenant_id key) (create_new e env actor form (some key) db)
    unfolding create_new audit
    create_new-Answers fresh =
        let id = db.next_id in
        let new = new_template e env actor form (some key) id in
        let compiled = compile_query a form.query actor.tenant_id (env.today actor.tenant_id) in
        let kept : find (has_key e actor.tenant_id key) (db.templates ++ new ∷ []) ≡ some new =
          find-append_none _ db.templates (new ∷ []) fresh ∙ only id in
        Yields-read (Answers actor.tenant_id key) (λ c. compiled ≡ ok c) (lift compiled) _ db
          (lift-Yields compiled db)
          λ _ _.
            Yields-read (Answers actor.tenant_id key) (λ _. Unit {0})
              (ensure_name_free e actor.tenant_id (env.strip form.name) none) _ db
              (free-Yields (env.strip form.name))
              λ _ _.
                Yields-bind
                  (λ r s.
                    (s ≡ add_template e new db)
                    × ((later : Templates e) → read e new later ≡ ok (r, later)))
                  (Answers actor.tenant_id key) (read e new) _ (add_template e new db)
                  (read-Yields new (add_template e new db)) λ r s same h. rw h.0 (new, kept, h.1 _)

    create_template-Answers :
        str_eq key "" ≡ false
        → Yields (Answers actor.tenant_id key) (create_template e env actor form (some key) db)
    unfolding create_template
    create_template-Answers named =
        elim (Option-cases (find (has_key e actor.tenant_id key) db.templates)) [
          | inl fresh ↦ rw (named, fresh) (create_new-Answers fresh)
          | inr (t, found) ↦
              rw (named, found)
                (Yields-map _ (Answers actor.tenant_id key) (read e t db)
                  (λ r s h. (t, rw h.0 found, h.1 s)) (read-Yields t db))
        ]

    -- After a call with a key that is not empty has returned a template, a further call with that key,
    -- for any form and by any user of the tenant, returns the same template and changes nothing.
    pub create_template-retry :
        (env' : Env) (actor' : AccessClaims) (form' : ReportTemplateCreate e) (db' : Templates e)
        (r : ReportTemplateRead e)
        → str_eq key "" ≡ false
        → actor'.tenant_id ≡ actor.tenant_id
        → create_template e env actor form (some key) db ≡ ok (r, db')
        → create_template e env' actor' form' (some key) db' ≡ ok (r, db')
    unfolding create_template
    create_template-retry env' actor' form' db' r named tenant done =
        let answered =
          subst (Yields (Answers actor.tenant_id key)) done (create_template-Answers named) in
        rw (named, tenant, answered.1) answered.2

  module _ (env : Env) (actor : AccessClaims) (id : ℕ) (t : Template e) (db : Templates e) where
    -- A template whose stored query is not valid any more is refused as invalid when it is run or
    -- exported, and it can be neither updated, whatever is sent, nor read nor deleted: each of these
    -- fails with an exception that is no error of the business.
    pub invalid_template-stuck :
        (form : ReportTemplateUpdate e) (format : ExportFormat)
        → find (is_template e actor.tenant_id id) db.templates ≡ some t
        → e.load t.query ≡ none
        → (run_template e env actor id db ≡ err (rule_violation Code.report_template_invalid))
          × (export_template e env actor id format db
              ≡ err (rule_violation Code.report_template_invalid))
          × (update_template e env actor id form db ≡ err unexpected)
          × (get_template e actor.tenant_id id db ≡ err unexpected)
          × (delete_template e actor id db ≡ err unexpected)
    unfolding run_template export_template update_template get_template delete_template get read
        stored_query
    invalid_template-stuck form format found invalid = (
      rw (found, invalid) refl,
      rw (found, invalid) refl,
      rw (found, invalid) refl,
      rw (found, invalid) refl,
      rw (found, invalid) refl,
    )
