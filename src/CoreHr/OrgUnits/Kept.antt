-- ===== src/CoreHr/OrgUnits/Kept.antt =====
-- The services on organisation units keep the organisation a forest.
use hrus.Base.{
  ℕ, ◌≡◌, refl, Bool, false, not, ◌&&◌, Option, none, some, List, [], ◌∷◌, String, arith, ◌==◌,
  find, any, update_first, Bool-cases, Option-cases, inl, inr,
}
use mathlib.Core.Path.{subst}
use mathlib.Core.Option
use hrus.Errors.{Code, not_found, conflict, rule_violation}
use hrus.Models.Auth.{AccessClaims}
use hrus.Models.CoreHr.{OrgUnit}
use hrus.Db.{Db, Env, record_audit}
use hrus.Tx.{
  pure, raise_if, or_raise, Commits, Commits-read, Commits-bind, Yields, raise_if-Yields,
  or_raise-Yields, Yields-map, ◌>>=◌, ◌>>◌,
}
use hrus.Rules.CoreHr.{check_org_parent}
use hrus.CoreHr.OrgUnits.{is_org_unit, active_unit, ensure_active_org_unit, ensure_employee_exists}
use hrus.CoreHr.OrgUnits.Forest.{up, IsForest, IsForest-change, up-update_kept}
use hrus.CoreHr.OrgUnits.Reparent.{root-IsForest, reparent-IsForest, append-IsForest}
use hrus.CoreHr.OrgUnits.Services.{
  OrgUnitCreate, OrgUnitUpdate, load_unit, ancestors, new_unit, create_org_unit, change_unit,
  set_name, reparent, set_parent, set_manager, set_active, audit_change, same_unit, code_taken,
  active_child, update_org_unit, ensure_parent, ensure_manager,
}

abbrev Forest : Db → Type 0
Forest db = IsForest db.org_units

ensure-exists :
    (t p : ℕ) (db : Db)
    → Yields
        (λ _ db'. (db' ≡ db) × ((o : Option ℕ) × (up db.org_units t p ≡ some o)))
        (ensure_active_org_unit t p db)
unfolding ensure_active_org_unit up
ensure-exists t p db = by_unit (find (is_org_unit t p) db.org_units) refl
  where
    by_unit :
        (o : Option OrgUnit)
        → find (is_org_unit t p) db.org_units ≡ o
        → Yields
            (λ _ db'. (db' ≡ db) × ((q : Option ℕ) × (up db.org_units t p ≡ some q)))
            (raise_if (not (active_unit o)) (rule_violation Code.org_unit_invalid) db)
    by_unit none h = tt
    by_unit (some u) h = elim (Bool-cases u.is_active) [
      | inl on ↦ rw on (refl, (u.parent_id, rw h refl))
      | inr off ↦ rw off tt
    ]

ensure_employee-Yields :
    (t e : ℕ) (db : Db) → Yields (λ _ db'. (db' ≡ db) × Unit {0}) (ensure_employee_exists t e db)
unfolding ensure_employee_exists
ensure_employee-Yields t e db =
    Yields-map
      (λ _ s'. (s' ≡ db) × (not (any (λ x. x.tenant_id == t && x.id == e) db.employees) ≡ false))
      (λ _ s'. (s' ≡ db) × Unit {0})
      (raise_if (not (any (λ x. x.tenant_id == t && x.id == e) db.employees))
        (rule_violation Code.employee_invalid) db)
      (λ _ s' h. (h.0, tt)) (raise_if-Yields _ _ db)

change-Forest :
    (unit : OrgUnit) (f : OrgUnit → OrgUnit) (db : Db)
    → ((u : OrgUnit)
        → ((f u).id ≡ u.id) × ((f u).tenant_id ≡ u.tenant_id) × ((f u).parent_id ≡ u.parent_id))
    → Forest db
    → Forest (change_unit unit f db)
unfolding change_unit
change-Forest unit f db keep h =
    IsForest-change db.org_units (update_first (is_org_unit unit.tenant_id unit.id) f db.org_units)
      (λ t j. inl (up-update_kept (is_org_unit unit.tenant_id unit.id) f keep db.org_units t j)) h

update_first-none :
    (p : OrgUnit → Bool) (f : OrgUnit → OrgUnit) (us : List OrgUnit)
    → find p us ≡ none
    → update_first p f us ≡ us
unfolding find update_first
update_first-none p f [] h = refl
update_first-none p f (u ∷ us) h = ground (arith, update_first-none p f us)

reparent-Forest :
    (unit : OrgUnit) (parent : Option ℕ) (db : Db)
    → ((u : OrgUnit)
        → find (is_org_unit unit.tenant_id unit.id) db.org_units ≡ some u
        → Forest (reparent unit parent db))
    → Forest db
    → Forest (reparent unit parent db)
unfolding change_unit
reparent-Forest unit parent db moved h =
    elim (Option-cases (find (is_org_unit unit.tenant_id unit.id) db.org_units)) [
      | inl gone ↦ rw (update_first-none _ _ db.org_units gone) h
      | inr (u, found) ↦ moved u found
    ]

set_parent-Forest :
    (unit : OrgUnit) (p : Option (Option ℕ)) (db : Db)
    → Forest db
    → Commits Forest (set_parent unit p db)
unfolding change_unit check_org_parent
set_parent-Forest unit none db h = h
set_parent-Forest unit (some none) db h =
    reparent-Forest unit none db
      (λ u found. root-IsForest unit.tenant_id unit.id 0 db.org_units u found h) h
set_parent-Forest unit (some (some parent)) db h =
    Commits-read Forest (λ _. (o : Option ℕ) × (up db.org_units unit.tenant_id parent ≡ some o))
      (ensure_active_org_unit unit.tenant_id parent) _ db (ensure-exists unit.tenant_id parent db)
      λ _ exists.
        elim (Bool-cases (any (λ a. unit.id == a) (ancestors unit.tenant_id db.org_units parent))) [
          | inl above ↦ rw above tt
          | inr clear ↦ rw clear (
              reparent-Forest unit (some parent) db
                (λ u found.
                  reparent-IsForest unit.tenant_id unit.id parent db.org_units u found exists.0
                    exists.1 clear h)
                h)
        ]

ensure_manager-Yields :
    (t : ℕ) (m : Option ℕ) (db : Db)
    → Yields (λ _ db'. (db' ≡ db) × Unit {0}) (ensure_manager t m db)
ensure_manager-Yields t none db = (refl, tt)
ensure_manager-Yields t (some e) db = ensure_employee-Yields t e db

set_manager-Forest :
    (unit : OrgUnit) (m : Option (Option ℕ)) (db : Db)
    → Forest db
    → Commits Forest (set_manager unit m db)
set_manager-Forest unit none db h = h
set_manager-Forest unit (some m) db h =
    Commits-read Forest (λ _. Unit {0}) (ensure_manager unit.tenant_id m) _ db
      (ensure_manager-Yields unit.tenant_id m db)
      λ _ _.
        change-Forest unit (λ u. record u { manager_employee_id = m }) db (λ u. (refl, refl, refl))
          h

set_active-Forest :
    (unit : OrgUnit) (a : Option Bool) (db : Db) → Forest db → Commits Forest (set_active unit a db)
set_active-Forest unit none db h = h
set_active-Forest unit (some a) db h =
    Commits-read Forest (λ _. (not a && active_child unit db) ≡ false)
      (raise_if (not a && active_child unit db) (rule_violation Code.org_unit_has_active_children))
      _ db (raise_if-Yields _ _ db)
      λ _ _. change-Forest unit (λ u. record u { is_active = a }) db (λ u. (refl, refl, refl)) h

set_name-Forest :
    (env : Env) (unit : OrgUnit) (n : Option String) (db : Db)
    → Forest db
    → Commits Forest (set_name env unit n db)
set_name-Forest env unit none db h = h
set_name-Forest env unit (some n) db h =
    change-Forest unit (λ u. record u { name = env.strip n }) db (λ u. (refl, refl, refl)) h

audit-Forest :
    (actor : AccessClaims) (a b : OrgUnit) (db : Db)
    → Forest db
    → Commits Forest (audit_change actor a b db)
unfolding record_audit
audit-Forest actor a b db h = elim (Bool-cases (same_unit b a)) [
  | inl same ↦ rw same h
  | inr other ↦ rw other h
]

load-Yields : (t id : ℕ) (db : Db) → Yields (λ _ db'. (db' ≡ db) × Unit {0}) (load_unit t id db)
unfolding load_unit
load-Yields t id db =
    Yields-map (λ a s'. (s' ≡ db) × (find (is_org_unit t id) db.org_units ≡ some a))
      (λ _ s'. (s' ≡ db) × Unit {0}) (or_raise not_found (find (is_org_unit t id) db.org_units) db)
      (λ _ s' h. (h.0, tt)) (or_raise-Yields _ _ db)

-- A change of a unit that commits, whatever fields it sets, leaves the organisation a forest: no
-- parent is missing, and no unit stands above itself.
update_org_unit-IsForest :
    (env : Env) (actor : AccessClaims) (unit_id : ℕ) (form : OrgUnitUpdate) (db : Db)
    → IsForest db.org_units
    → Commits (λ db'. IsForest db'.org_units) (update_org_unit env actor unit_id form db)
unfolding update_org_unit
update_org_unit-IsForest env actor unit_id form db h =
    Commits-read Forest (λ _. Unit {0}) (load_unit actor.tenant_id unit_id) _ db
      (load-Yields actor.tenant_id unit_id db)
      λ unit _.
        Commits-bind Forest Forest (set_name env unit form.name) _ db
          (set_name-Forest env unit form.name db h)
          λ _ db1 h1.
            Commits-bind Forest Forest (set_parent unit form.parent_id) _ db1
              (set_parent-Forest unit form.parent_id db1 h1)
              λ _ db2 h2.
                Commits-bind Forest Forest (set_manager unit form.manager_employee_id) _ db2
                  (set_manager-Forest unit form.manager_employee_id db2 h2)
                  λ _ db3 h3.
                    Commits-bind Forest Forest (set_active unit form.is_active) _ db3
                      (set_active-Forest unit form.is_active db3 h3) λ _ db4 h4. report unit db4 h4
  where
    report :
        (unit : OrgUnit) (db4 : Db)
        → Forest db4
        → Commits Forest (
            (load_unit actor.tenant_id unit_id >>= λ later.
            audit_change actor unit later >> pure later)
              db4)
    report unit db4 h4 =
        Commits-read Forest (λ _. Unit {0}) (load_unit actor.tenant_id unit_id) _ db4
          (load-Yields actor.tenant_id unit_id db4)
          λ later _.
            Commits-bind Forest Forest (audit_change actor unit later) (λ _. pure later) db4
              (audit-Forest actor unit later db4 h4) (λ _ db5 h5. h5)

abbrev Exists : ℕ → Option ℕ → Db → Type 0
Exists t parent db = (q : ℕ) → parent ≡ some q → (o : Option ℕ) × (up db.org_units t q ≡ some o)

ensure_parent-Yields :
    (t : ℕ) (p : Option ℕ) (db : Db)
    → Yields (λ _ db'. (db' ≡ db) × Exists t p db) (ensure_parent t p db)
ensure_parent-Yields t none db = (refl, λ q e. absurd (Option.none-ne-some q e))
ensure_parent-Yields t (some p) db =
    Yields-map (λ _ db'. (db' ≡ db) × ((o : Option ℕ) × (up db.org_units t p ≡ some o)))
      (λ _ db'. (db' ≡ db) × Exists t (some p) db) (ensure_active_org_unit t p db)
      (λ _ db' x. (
        x.0,
        λ q e.
            subst (λ j. (o : Option ℕ) × (up db.org_units t j ≡ some o))
              (Option.some-injective p q e) x.1,
      ))
      (ensure-exists t p db)

-- A new unit that is committed leaves the organisation a forest.
create_org_unit-IsForest :
    (env : Env) (actor : AccessClaims) (form : OrgUnitCreate) (db : Db)
    → IsForest db.org_units
    → Commits (λ db'. IsForest db'.org_units) (create_org_unit env actor form db)
unfolding create_org_unit record_audit
create_org_unit-IsForest env actor form db h =
    let code = env.upper (env.strip form.code) in
    Commits-read Forest (λ _. code_taken actor.tenant_id code db ≡ false)
      (raise_if (code_taken actor.tenant_id code db) (conflict Code.org_unit_code_taken)) _ db
      (raise_if-Yields _ _ db)
      λ _ _.
        Commits-read Forest (λ _. Exists actor.tenant_id form.parent_id db)
          (ensure_parent actor.tenant_id form.parent_id) _ db
          (ensure_parent-Yields actor.tenant_id form.parent_id db)
          λ _ above.
            Commits-read Forest (λ _. Unit {0})
              (ensure_manager actor.tenant_id form.manager_employee_id) _ db
              (ensure_manager-Yields actor.tenant_id form.manager_employee_id db)
              λ _ _.
                append-IsForest db.org_units (new_unit env db.next_id actor.tenant_id form)
                  (λ q e. let (o, found) = above q e in h actor.tenant_id q o found) h

-- A new unit that is committed, and a change of a unit that commits, whatever fields it sets, leave
-- the organisation a forest: no parent is missing, and no unit stands above itself.
pub org_units-IsForest :
    (env : Env) (actor : AccessClaims) (form : OrgUnitCreate) (unit_id : ℕ)
    (changes : OrgUnitUpdate) (db : Db)
    → IsForest db.org_units
    → Commits (λ db'. IsForest db'.org_units) (create_org_unit env actor form db)
      × Commits (λ db'. IsForest db'.org_units) (update_org_unit env actor unit_id changes db)
org_units-IsForest env actor form unit_id changes db h = (
  create_org_unit-IsForest env actor form db h,
  update_org_unit-IsForest env actor unit_id changes db h,
)
