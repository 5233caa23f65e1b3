-- ===== src/CoreHr/OrgUnits.antt =====
-- backend/app/services/org_units.py: the two checks that the employees' services call; the
-- operations are in Services.
pub mod Services
pub mod Forest
pub mod Reparent
pub mod Kept
use hrus.Base.{ℕ, Bool, false, not, ◌&&◌, Option, none, some, ◌==◌, find, any}
use hrus.Errors.{Code, rule_violation}
use hrus.Tx.{Tx, gets, raise_if, ◌>>=◌}
use hrus.Models.CoreHr.{OrgUnit}
use hrus.Db.{Db}

unfoldable pub is_org_unit : ℕ → ℕ → OrgUnit → Bool
is_org_unit tenant_id unit_id u = u.tenant_id == tenant_id && u.id == unit_id

abbrev pub active_unit : Option OrgUnit → Bool
active_unit none = false
active_unit (some u) = u.is_active

unfoldable pub ensure_active_org_unit : ℕ → ℕ → Tx Db (Unit {0})
ensure_active_org_unit tenant_id unit_id = do
  unit ← gets (λ db. find (is_org_unit tenant_id unit_id) db.org_units)
  raise_if (not (active_unit unit)) (rule_violation Code.org_unit_invalid)

unfoldable pub ensure_employee_exists : ℕ → ℕ → Tx Db (Unit {0})
ensure_employee_exists tenant_id employee_id = do
  found ← gets (λ db. any (λ e. e.tenant_id == tenant_id && e.id == employee_id) db.employees)
  raise_if (not found) (rule_violation Code.employee_invalid)
