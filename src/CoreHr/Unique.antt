-- ===== src/CoreHr/Unique.antt =====
-- Employee numbers and addresses are unique in a tenant, as the unique indexes of
-- backend/app/models/core_hr.py state, through every creation and change.
pub mod Free
pub mod Rows
use hrus.Base.{
  ℕ, ◌≤◌, ◌<◌, ◌≡◌, refl, sym, ap, Bool, true, false, not, ◌&&◌, Option, none, some, List, [], ◌∷◌,
  ◌++◌, String, str_eq→eq, ◌==◌, find, any, count, update_first, All, All-append, All-map,
  All-update_first, count-append_one, count-changed, count-others, inl, inr, Bool-cases, arith,
  find-holds, Option-cases, find-update_first_self, ◌∙◌,
}
use mathlib.Core.Path.{subst}
use hrus.Calendar.{Date}
use hrus.Errors.{Code, conflict, not_found, rule_violation}
use hrus.Tx.{
  Yields, Commits, Commits-read, Commits-bind, Yields-read, Yields-map, raise_if, raise_if-Yields,
  or_raise, or_raise-Yields,
}
use hrus.Models.Auth.{AccessClaims}
use hrus.Models.CoreHr.{Employee}
use hrus.Db.{Db, Env, record_audit}
use hrus.Leave.Balances.{is_employee}
use hrus.CoreHr.OrgUnits.{is_org_unit, active_unit, ensure_active_org_unit, ensure_employee_exists}
use hrus.CoreHr.Employees.{
  EmployeeCreate, EmployeeUpdate, has_number, holds_text, has_email, other_than, number_free,
  email_free, ensure_unique, ensure_supervisor, new_employee, add_employee, change_employee,
  create_employee, update_employee, set_email, set_full_name, differs, audit_if, read,
}
use hrus.CoreHr.Unique.Free.{
  IsUnique, EmailFree, NumberFree, ensure_unique-Yields, unit-Yields, supervisor-Yields,
}
use hrus.CoreHr.Unique.Rows.{
  any-and_true, is_employee-ids, add_employee-IsUnique, email-IsUnique, name-IsUnique, same_id,
}

-- The tables after a step, with the row that is changed.
abbrev Kept : ℕ → ℕ → Db → Type 0
Kept t i db = IsUnique db × ((x : Employee) × (find (is_employee t i) db.employees ≡ some x))

read-Commits : (P : Db → Type 0) (t i : ℕ) (d : Date) (db : Db) → P db → Commits P (read t i d db)
unfolding read
read-Commits P t i d db h = elim (Option-cases (find (is_employee t i) db.employees)) [
  | inl gone ↦ rw gone tt
  | inr (e, found) ↦ rw found h
]

module _ (env : Env) (actor : AccessClaims) where
  audit_if-IsUnique :
      (b : Bool) (id : ℕ) (db : Db) → IsUnique db → Commits IsUnique (audit_if b actor id db)
  unfolding record_audit
  audit_if-IsUnique true id db u = record {
    ids = u.ids;
    numbers = u.numbers;
    emails = u.emails;
    fresh = u.fresh;
  }
  audit_if-IsUnique false id db u = u

  -- From employees with numbers and addresses of their own, a creation that commits leaves them so.
  create_employee-IsUnique :
      (form : EmployeeCreate) (db : Db)
      → IsUnique db
      → Commits IsUnique (create_employee env actor form db)
  unfolding create_employee record_audit
  create_employee-IsUnique form db u =
      let number = env.upper (env.strip form.employee_number) in
      let t = actor.tenant_id in
      Commits-read IsUnique
        (λ _. NumberFree t (some number) none db × EmailFree t form.work_email none db)
        (ensure_unique t (some number) form.work_email none) _ db
        (ensure_unique-Yields t none db (some number) form.work_email)
        λ _ free.
          Commits-read IsUnique (λ _. Unit {0}) (ensure_active_org_unit t form.job.org_unit_id) _ db
            (unit-Yields t form.job.org_unit_id db)
            λ _ _.
              Commits-read IsUnique (λ _. Unit {0})
                (ensure_supervisor t form.job.supervisor_employee_id) _ db
                (supervisor-Yields t form.job.supervisor_employee_id db)
                λ _ _.
                  let e = new_employee env t form db.next_id in
                  let added =
                    add_employee-IsUnique e db u refl
                      (sym (any-and_true (has_number t number) db.employees) ∙ free.0) free.1 in
                  read-Commits IsUnique t db.next_id (env.today t) _ (record {
                    ids = added.ids;
                    numbers = added.numbers;
                    emails = added.emails;
                    fresh = All-map _ _ (db.employees ++ e ∷ []) (λ x h. omega arith) added.fresh;
                  })

  set_email-Kept :
      (e : Employee) (email : Option (Option String)) (db : Db)
      → IsUnique db
      → e.tenant_id ≡ actor.tenant_id
      → find (is_employee e.tenant_id e.id) db.employees ≡ some e
      → Commits (Kept e.tenant_id e.id) (set_email actor.tenant_id e email db)
  set_email-Kept e none db u own found = (u, (e, found))
  set_email-Kept e (some email) db u own found =
      Commits-read (Kept e.tenant_id e.id)
        (λ _.
          NumberFree actor.tenant_id none (some e.id) db
          × EmailFree actor.tenant_id email (some e.id) db)
        (ensure_unique actor.tenant_id none email (some e.id)) _ db
        (ensure_unique-Yields actor.tenant_id (some e.id) db none email)
        λ _ free. (
          email-IsUnique e db u found email (rw own free.1),
          (
            record e { work_email = email },
            find-update_first_self _ (λ x. record x { work_email = email }) db.employees e
                (λ y h. same_id e.tenant_id e.id y email h) found,
          ),
        )

  set_full_name-IsUnique :
      (e : Employee) (name : Option String) (db : Db)
      → Kept e.tenant_id e.id db
      → Commits IsUnique (set_full_name env e name db)
  set_full_name-IsUnique e none db k = k.0
  set_full_name-IsUnique e (some name) db k =
      name-IsUnique e.tenant_id e.id k.1.0 db (env.strip name) k.0 k.1.1

  found-ids :
      (t i : ℕ) (e : Employee) (db : Db)
      → find (is_employee t i) db.employees ≡ some e
      → (e.tenant_id ≡ t) × (find (is_employee e.tenant_id e.id) db.employees ≡ some e)
  found-ids t i e db found =
      let ids = is_employee-ids t i e (find-holds _ db.employees e found) in
      (ids.0, simp (ids.0, ids.1) found)

  -- From employees with numbers and addresses of their own, a change that commits leaves them so,
  -- whatever it sets.
  update_employee-IsUnique :
      (employee_id : ℕ) (form : EmployeeUpdate) (db : Db)
      → IsUnique db
      → Commits IsUnique (update_employee env actor employee_id form db)
  unfolding update_employee
  update_employee-IsUnique employee_id form db u =
      let t = actor.tenant_id in
      let found = find (is_employee t employee_id) db.employees in
      Commits-read IsUnique (λ e. found ≡ some e) (or_raise not_found found) _ db
        (or_raise-Yields not_found found db)
        λ e at.
          let own = found-ids t employee_id e db at in
          Commits-bind (Kept e.tenant_id e.id) IsUnique (set_email t e form.work_email) _ db
            (set_email-Kept e form.work_email db u own.0 own.1)
            λ _ db1 kept.
              Commits-bind IsUnique IsUnique (set_full_name env e form.full_name) _ db1
                (set_full_name-IsUnique e form.full_name db1 kept)
                λ _ db2 u2.
                  Commits-bind IsUnique IsUnique (audit_if (differs env e form) actor e.id) _ db2
                    (audit_if-IsUnique (differs env e form) e.id db2 u2)
                    λ _ db3 u3. read-Commits IsUnique t e.id (env.today t) db3 u3

  -- From employees with ids, numbers and addresses of their own in the tenant, a creation and a change
  -- that commit leave them so, whatever they set.
  pub employees-IsUnique :
      (form : EmployeeCreate) (employee_id : ℕ) (changes : EmployeeUpdate) (db : Db)
      → IsUnique db
      → Commits IsUnique (create_employee env actor form db)
        × Commits IsUnique (update_employee env actor employee_id changes db)
  employees-IsUnique form employee_id changes db u =
      (create_employee-IsUnique form db u, update_employee-IsUnique employee_id changes db u)
