-- ===== src/CoreHr/Unique/Free.antt =====
-- What the checks of backend/app/services/employees.py establish before a row is written.
use hrus.Base.{
  ℕ, ◌≤◌, ◌<◌, ◌≡◌, refl, false, not, ◌&&◌, Option, none, some, String, ◌==◌, find, any, count, All,
}
use hrus.Errors.{Code, conflict, rule_violation}
use hrus.Tx.{Yields, Yields-read, Yields-map, raise_if, raise_if-Yields}
use hrus.Db.{Db}
use hrus.Leave.Balances.{is_employee}
use hrus.CoreHr.OrgUnits.{is_org_unit, active_unit, ensure_active_org_unit, ensure_employee_exists}
use hrus.CoreHr.Employees.{
  has_number, has_email, other_than, number_free, email_free, ensure_unique, ensure_supervisor,
}

-- One employee at most has an id, a number, an address; ids to come are new.
pub record IsUnique (db : Db) : Type 0 where
  pub ids : (t i : ℕ) → count (is_employee t i) db.employees ≤ 1
  pub numbers : (t : ℕ) (n : String) → count (has_number t n) db.employees ≤ 1
  pub emails : (t : ℕ) (e : String) → count (has_email t e) db.employees ≤ 1
  pub fresh : All (λ e. e.id < db.next_id) db.employees

-- No row has the number; no row has the address, if there is one.
abbrev pub EmailFree : ℕ → Option String → Option ℕ → Db → Type 0
EmailFree t none exclude db = Unit
EmailFree t (some email) exclude db =
    any (λ e. has_email t email e && other_than exclude e) db.employees ≡ false

abbrev pub NumberFree : ℕ → Option String → Option ℕ → Db → Type 0
NumberFree t none exclude db = Unit
NumberFree t (some number) exclude db =
    any (λ e. has_number t number e && other_than exclude e) db.employees ≡ false

module _ (t : ℕ) (exclude : Option ℕ) (db : Db) where
  number_free-Yields :
      (number : Option String)
      → Yields (λ _ s. (s ≡ db) × NumberFree t number exclude db) (number_free t number exclude db)
  number_free-Yields none = (refl, tt)
  number_free-Yields (some number) = raise_if-Yields _ (conflict Code.employee_number_taken) db

  email_free-Yields :
      (email : Option String)
      → Yields (λ _ s. (s ≡ db) × EmailFree t email exclude db) (email_free t email exclude db)
  email_free-Yields none = (refl, tt)
  email_free-Yields (some email) = raise_if-Yields _ (conflict Code.work_email_taken) db

  pub ensure_unique-Yields :
      (number email : Option String)
      → Yields
          (λ _ s. (s ≡ db) × (NumberFree t number exclude db × EmailFree t email exclude db))
          (ensure_unique t number email exclude db)
  unfolding ensure_unique
  ensure_unique-Yields number email =
      Yields-read
        (λ _ s. (s ≡ db) × (NumberFree t number exclude db × EmailFree t email exclude db))
        (λ _. NumberFree t number exclude db) (number_free t number exclude)
        (λ _. email_free t email exclude) db (number_free-Yields number)
        λ _ free.
          Yields-map (λ _ s. (s ≡ db) × EmailFree t email exclude db)
            (λ _ s. (s ≡ db) × (NumberFree t number exclude db × EmailFree t email exclude db))
            (email_free t email exclude db) (λ _ s h. (h.0, (free, h.1))) (email_free-Yields email)

pub unit-Yields :
    (t unit : ℕ) (db : Db) → Yields (λ _ s. (s ≡ db) × Unit {0}) (ensure_active_org_unit t unit db)
unfolding ensure_active_org_unit
unit-Yields t unit db =
    let off = not (active_unit (find (is_org_unit t unit) db.org_units)) in
    Yields-map (λ _ s. (s ≡ db) × (off ≡ false)) (λ _ s. (s ≡ db) × Unit {0})
      (raise_if off (rule_violation Code.org_unit_invalid) db) (λ _ s h. (h.0, tt))
      (raise_if-Yields off _ db)

pub supervisor-Yields :
    (t : ℕ) (s : Option ℕ) (db : Db)
    → Yields (λ _ s'. (s' ≡ db) × Unit {0}) (ensure_supervisor t s db)
unfolding ensure_employee_exists
supervisor-Yields t none db = (refl, tt)
supervisor-Yields t (some s) db =
    let gone = not (any (λ e. e.tenant_id == t && e.id == s) db.employees) in
    Yields-map (λ _ s'. (s' ≡ db) × (gone ≡ false)) (λ _ s'. (s' ≡ db) × Unit {0})
      (raise_if gone (rule_violation Code.employee_invalid) db) (λ _ s' h. (h.0, tt))
      (raise_if-Yields gone _ db)
