-- ===== src/Tests/OrgUnits.antt =====
-- backend/app/services/org_units.py: a unit is created below the unit of `company`, and moved.
use hrus.Base.{refl, true, none, some, find, Bool-cases, inl, inr}
use mathlib.Core.Option
use hrus.Models.CoreHr.{OrgUnit}
use hrus.Tx.{Commits}
use hrus.CoreHr.OrgUnits.{is_org_unit}
use hrus.CoreHr.OrgUnits.Forest.{IsForest, Rooted, up}
use hrus.CoreHr.OrgUnits.Services.{OrgUnitCreate, OrgUnitUpdate, create_org_unit, update_org_unit}
use hrus.CoreHr.OrgUnits.Kept.{org_units-IsForest}
use hrus.Tests.CoreHr.{company, env, boss}

abbrev operations : OrgUnit
operations = record {
  id = 5;
  tenant_id = 1;
  code = "OPS";
  name = "Operations";
  parent_id = none;
  manager_employee_id = some 11;
  is_active = true;
}

company-IsForest : IsForest company.org_units
unfolding up find
company-IsForest t id parent h = elim (Bool-cases (is_org_unit t id operations)) [
  | inl here ↦ (0, Rooted.root (rw here refl))
  | inr there ↦ absurd (Option.none-ne-some parent (rw there at h))
]

abbrev form : OrgUnitCreate
form = record { code = "FIN"; name = "Finance"; parent_id = some 5; manager_employee_id = some 11 }

abbrev changes : OrgUnitUpdate
changes = record {
  name = some "Work";
  parent_id = some (some 5);
  manager_employee_id = none;
  is_active = some true;
}

org_units-IsForest_example :
    Commits (λ db'. IsForest db'.org_units) (create_org_unit env boss form company)
    × Commits (λ db'. IsForest db'.org_units) (update_org_unit env boss 5 changes company)
org_units-IsForest_example = org_units-IsForest env boss form 5 changes company company-IsForest
