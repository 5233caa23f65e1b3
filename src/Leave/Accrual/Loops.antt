-- ===== src/Leave/Accrual/Loops.antt =====
-- The loops of an accrual over employees and leave types settle what they visit, and keep the tables
-- that decide what is visited.
use hrus.Base.{ℕ, ◌≡◌, refl, ◌∙◌, Option, none, some, List, [], ◌∷◌, String, All}
use hrus.Base.Int.{ℤ}
use hrus.Calendar.{Date}
use hrus.Models.CoreHr.{Employee, EmployeeJob}
use hrus.Models.Leave.{LeaveType, LeavePolicy, LeaveBalance}
use hrus.Db.{Db}
use hrus.Leave.Balances.{Key, find_balance, change_balance, add_balance}
use hrus.Leave.Accrual.{
  Pass, visit, visit_found, yearly_key, target_days, visit_pair, visit_types, visit_employees,
}
use hrus.Leave.Accrual.Settled.{IsSettled, visit-IsSettled, visit-keeps, visit-fixed}

-- The tables that decide what is visited, and with which target.
pub record SameInputs (db db' : Db) : Type 0 where
  pub types : db'.leave_types ≡ db.leave_types
  pub policies : db'.leave_policies ≡ db.leave_policies
  pub employees : db'.employees ≡ db.employees
  pub jobs : db'.employee_jobs ≡ db.employee_jobs

module _ (now year : ℕ) (k : Key) (base : Option LeavePolicy) (target : ℤ)
    (last_year : Option LeaveBalance) where
  visit-SameInputs : (s : Pass) → SameInputs s.db (visit now year k base target last_year s).db
  unfolding visit add_balance change_balance
  visit-SameInputs s = by_balance (find_balance k s.db)
    where
      by_balance :
          (o : Option LeaveBalance)
          → SameInputs s.db (visit_found now year k base target last_year o s).db
      by_balance none = record { types = refl; policies = refl; employees = refl; jobs = refl }
      by_balance (some b) = record { types = refl; policies = refl; employees = refl; jobs = refl }

module _ (upper : String → String) (tenant_id : ℕ) (as_of : Date) (jobs : List EmployeeJob)
    (policies : List LeavePolicy) where
  abbrev PairSettled : Db → Employee → LeaveType → Type 0
  PairSettled db e t =
      IsSettled (target_days upper tenant_id jobs policies as_of e t)
        (find_balance (yearly_key tenant_id as_of.year e t) db)

  abbrev TypesSettled : Db → Employee → List LeaveType → Type 0
  TypesSettled db e ts = All (λ t. PairSettled db e t) ts

  abbrev pub AllSettled : Db → List Employee → List LeaveType → Type 0
  AllSettled db es ts = All (λ e. TypesSettled db e ts) es

  module _ (now : ℕ) (before : Db) where
    abbrev step : Employee → LeaveType → Pass → Pass
    step = visit_pair upper now tenant_id as_of jobs policies before

    abbrev over_types : Employee → List LeaveType → Pass → Pass
    over_types = visit_types upper now tenant_id as_of jobs policies before

    abbrev over_employees : List Employee → List LeaveType → Pass → Pass
    over_employees = visit_employees upper now tenant_id as_of jobs policies before

    types-keep :
        (e' : Employee) (t' : LeaveType) (e : Employee) (ts : List LeaveType) (s : Pass)
        → PairSettled s.db e' t'
        → PairSettled (over_types e ts s).db e' t'
    unfolding visit_types
    types-keep e' t' e [] s h = h
    types-keep e' t' e (t ∷ ts) s h =
        types-keep e' t' e ts (step e t s) (visit-keeps now as_of.year _ _ _ _ _ _ s h)

    employees-keep :
        (e' : Employee) (t' : LeaveType) (es : List Employee) (ts : List LeaveType) (s : Pass)
        → PairSettled s.db e' t'
        → PairSettled (over_employees es ts s).db e' t'
    unfolding visit_employees
    employees-keep e' t' [] ts s h = h
    employees-keep e' t' (e ∷ es) ts s h =
        employees-keep e' t' es ts (over_types e ts s) (types-keep e' t' e ts s h)

    employees-keep_types :
        (e' : Employee) (ts' : List LeaveType) (es : List Employee) (ts : List LeaveType) (s : Pass)
        → TypesSettled s.db e' ts'
        → TypesSettled (over_employees es ts s).db e' ts'
    employees-keep_types e' [] es ts s h = tt
    employees-keep_types e' (t' ∷ ts') es ts s h =
        (employees-keep e' t' es ts s h.0, employees-keep_types e' ts' es ts s h.1)

    types-settle :
        (e : Employee) (ts : List LeaveType) (s : Pass) → TypesSettled (over_types e ts s).db e ts
    unfolding visit_types
    types-settle e [] s = tt
    types-settle e (t ∷ ts) s = (
      types-keep e t e ts (step e t s) (visit-IsSettled now as_of.year _ _ _ _ s),
      types-settle e ts (step e t s),
    )

    pub employees-settle :
        (es : List Employee) (ts : List LeaveType) (s : Pass)
        → AllSettled (over_employees es ts s).db es ts
    unfolding visit_employees
    employees-settle [] ts s = tt
    employees-settle (e ∷ es) ts s = (
      employees-keep_types e ts es ts (over_types e ts s) (types-settle e ts s),
      employees-settle es ts (over_types e ts s),
    )

    types-fixed :
        (e : Employee) (ts : List LeaveType) (s : Pass)
        → TypesSettled s.db e ts
        → over_types e ts s ≡ s
    unfolding visit_types
    types-fixed e [] s h = refl
    types-fixed e (t ∷ ts) s h =
        rw (visit-fixed now as_of.year (yearly_key tenant_id as_of.year e t) _ _ _ s h.0)
          (types-fixed e ts s h.1)

    pub employees-fixed :
        (es : List Employee) (ts : List LeaveType) (s : Pass)
        → AllSettled s.db es ts
        → over_employees es ts s ≡ s
    unfolding visit_employees
    employees-fixed [] ts s h = refl
    employees-fixed (e ∷ es) ts s h = rw (types-fixed e ts s h.0) (employees-fixed es ts s h.1)

SameInputs-trans : (a b c : Db) → SameInputs a b → SameInputs b c → SameInputs a c
SameInputs-trans a b c p q = record {
  types = q.types ∙ p.types;
  policies = q.policies ∙ p.policies;
  employees = q.employees ∙ p.employees;
  jobs = q.jobs ∙ p.jobs;
}

module _ (upper : String → String) (now tenant_id : ℕ) (as_of : Date) (jobs : List EmployeeJob)
    (policies : List LeavePolicy) (before : Db) where
  types-SameInputs :
      (e : Employee) (ts : List LeaveType) (s : Pass)
      → SameInputs s.db (visit_types upper now tenant_id as_of jobs policies before e ts s).db
  unfolding visit_types
  types-SameInputs e [] s = record { types = refl; policies = refl; employees = refl; jobs = refl }
  types-SameInputs e (t ∷ ts) s =
      SameInputs-trans _ _ _ (visit-SameInputs now as_of.year _ _ _ _ s)
        (types-SameInputs e ts (visit_pair upper now tenant_id as_of jobs policies before e t s))

  pub employees-SameInputs :
      (es : List Employee) (ts : List LeaveType) (s : Pass)
      → SameInputs s.db (visit_employees upper now tenant_id as_of jobs policies before es ts s).db
  unfolding visit_employees
  employees-SameInputs [] ts s = record {
    types = refl;
    policies = refl;
    employees = refl;
    jobs = refl;
  }
  employees-SameInputs (e ∷ es) ts s = SameInputs-trans _ _ _ (types-SameInputs e ts s) (
      employees-SameInputs es ts
        (visit_types upper now tenant_id as_of jobs policies before e ts s))
