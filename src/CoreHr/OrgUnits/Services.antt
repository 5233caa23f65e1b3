-- ===== src/CoreHr/OrgUnits/Services.antt =====
-- backend/app/services/org_units.py: units are created and changed. An object that was loaded is a
-- row of the table, which the source's autoflush keeps up to date.
use hrus.Base.{
  ℕ, zero, suc, Bool, true, false, not, ◌&&◌, Option, none, some, List, [], ◌∷◌, ◌++◌, String,
  str_eq, ◌==◌, holds_id, if◌then◌else◌, find, any, filter, length, update_first,
}
use hrus.Errors.{Code, Result, ok, err, not_found, conflict, rule_violation}
use hrus.Tx.{Tx, pure, raise, gets, modify, or_raise, raise_if, ◌>>=◌, ◌>>◌}
use hrus.Models.Auth.{AccessClaims}
use hrus.Models.CoreHr.{OrgUnit}
use hrus.Rules.CoreHr.{check_org_parent}
use hrus.Db.{Db, Env, record_audit}
use hrus.CoreHr.OrgUnits.{is_org_unit, ensure_active_org_unit, ensure_employee_exists}

pub record OrgUnitCreate : Type 0 where
  pub code : String
  pub name : String
  pub parent_id : Option ℕ
  pub manager_employee_id : Option ℕ

-- A field that was not sent is none; for the name and the activity so is null.
pub record OrgUnitUpdate : Type 0 where
  pub name : Option String
  pub parent_id : Option (Option ℕ)
  pub manager_employee_id : Option (Option ℕ)
  pub is_active : Option Bool

-- `_load`
unfoldable pub load_unit : ℕ → ℕ → Tx Db OrgUnit
load_unit tenant_id unit_id = do
  unit ← gets (λ db. find (is_org_unit tenant_id unit_id) db.org_units)
  or_raise not_found unit

-- `_ancestors`: the recursive query visits no unit twice, so a unit that was visited is left out of
-- the rest of the walk, which is no longer than the list of units.
abbrev pub onward : (ℕ → List ℕ) → Option ℕ → List ℕ
onward next none = []
onward next (some parent) = next parent

abbrev pub visited : (ℕ → List ℕ) → Option OrgUnit → List ℕ
visited next none = []
visited next (some u) = u.id ∷ onward next u.parent_id

abbrev pub without : ℕ → ℕ → List OrgUnit → List OrgUnit
without tenant_id id = filter (λ u. not (is_org_unit tenant_id id u))

unfoldable pub walk : ℕ → ℕ → List OrgUnit → ℕ → List ℕ
walk zero tenant_id units id = []
walk (suc fuel) tenant_id units id =
    visited (walk fuel tenant_id (without tenant_id id units))
      (find (is_org_unit tenant_id id) units)

unfoldable pub ancestors : ℕ → List OrgUnit → ℕ → List ℕ
ancestors tenant_id units id = walk (suc (length units)) tenant_id units id

abbrev pub code_taken : ℕ → String → Db → Bool
code_taken tenant_id code db =
    any (λ u. u.tenant_id == tenant_id && str_eq u.code code) db.org_units

abbrev pub ensure_parent : ℕ → Option ℕ → Tx Db (Unit {0})
ensure_parent tenant_id none = pure tt
ensure_parent tenant_id (some parent) = ensure_active_org_unit tenant_id parent

abbrev pub ensure_manager : ℕ → Option ℕ → Tx Db (Unit {0})
ensure_manager tenant_id none = pure tt
ensure_manager tenant_id (some manager) = ensure_employee_exists tenant_id manager

abbrev pub new_unit : Env → ℕ → ℕ → OrgUnitCreate → OrgUnit
new_unit env id tenant_id form = record {
  id = id;
  tenant_id = tenant_id;
  code = env.upper (env.strip form.code);
  name = env.strip form.name;
  parent_id = form.parent_id;
  manager_employee_id = form.manager_employee_id;
  is_active = true;
}

abbrev pub add_unit : OrgUnit → Db → Db
add_unit u db = record db { org_units = db.org_units ++ u ∷ []; next_id = suc db.next_id }

unfoldable pub create_org_unit : Env → AccessClaims → OrgUnitCreate → Tx Db OrgUnit
create_org_unit env actor form = do
  taken ← gets (code_taken actor.tenant_id (env.upper (env.strip form.code)))
  raise_if taken (conflict Code.org_unit_code_taken)
  ensure_parent actor.tenant_id form.parent_id
  ensure_manager actor.tenant_id form.manager_employee_id
  id ← gets (λ db. db.next_id)
  let unit = new_unit env id actor.tenant_id form
  modify (add_unit unit)
  record_audit actor.tenant_id (some actor.user_id) "org_unit.create" id
  pure unit

-- A change of the unit that was loaded.
unfoldable pub change_unit : OrgUnit → (OrgUnit → OrgUnit) → Db → Db
change_unit unit f db = record db {
  org_units = update_first (is_org_unit unit.tenant_id unit.id) f db.org_units;
}

abbrev pub lift : {A : Type 0} → Result A → Tx Db A
lift (ok a) = pure a
lift (err e) = raise e

abbrev pub set_name : Env → OrgUnit → Option String → Tx Db (Unit {0})
set_name env unit none = pure tt
set_name env unit (some name) = modify (change_unit unit (λ u. record u { name = env.strip name }))

abbrev pub reparent : OrgUnit → Option ℕ → Db → Db
reparent unit parent = change_unit unit (λ u. record u { parent_id = parent })

abbrev pub set_parent : OrgUnit → Option (Option ℕ) → Tx Db (Unit {0})
set_parent unit none = pure tt
set_parent unit (some none) = modify (reparent unit none)
set_parent unit (some (some parent)) = do
  ensure_active_org_unit unit.tenant_id parent
  above ← gets (λ db. ancestors unit.tenant_id db.org_units parent)
  lift (check_org_parent unit.id above)
  modify (reparent unit (some parent))

abbrev pub set_manager : OrgUnit → Option (Option ℕ) → Tx Db (Unit {0})
set_manager unit none = pure tt
set_manager unit (some manager) = do
  ensure_manager unit.tenant_id manager
  modify (change_unit unit (λ u. record u { manager_employee_id = manager }))

abbrev pub active_child : OrgUnit → Db → Bool
active_child unit db =
    any (λ u. u.tenant_id == unit.tenant_id && holds_id u.parent_id unit.id && u.is_active)
      db.org_units

abbrev pub set_active : OrgUnit → Option Bool → Tx Db (Unit {0})
set_active unit none = pure tt
set_active unit (some active) = do
  blocked ← gets (λ db. not active && active_child unit db)
  raise_if blocked (rule_violation Code.org_unit_has_active_children)
  modify (change_unit unit (λ u. record u { is_active = active }))

abbrev same_id : Option ℕ → Option ℕ → Bool
same_id none none = true
same_id (some a) (some b) = a == b
same_id _ _ = false

abbrev same_flag : Bool → Bool → Bool
same_flag true b = b
same_flag false b = not b

-- `after != before`; the id and the code do not change.
abbrev pub same_unit : OrgUnit → OrgUnit → Bool
same_unit a b =
    str_eq a.name b.name
    && same_id a.parent_id b.parent_id
    && same_id a.manager_employee_id b.manager_employee_id
    && same_flag a.is_active b.is_active

abbrev pub audit_change : AccessClaims → OrgUnit → OrgUnit → Tx Db (Unit {0})
audit_change actor earlier later =
    if same_unit later earlier
    then pure tt
    else record_audit actor.tenant_id (some actor.user_id) "org_unit.update" later.id

unfoldable pub update_org_unit : Env → AccessClaims → ℕ → OrgUnitUpdate → Tx Db OrgUnit
update_org_unit env actor unit_id form = do
  unit ← load_unit actor.tenant_id unit_id
  set_name env unit form.name
  set_parent unit form.parent_id
  set_manager unit form.manager_employee_id
  set_active unit form.is_active
  changed ← load_unit actor.tenant_id unit_id
  audit_change actor unit changed
  pure changed
