-- ===== src/CoreHr/Candidates.antt =====
-- backend/app/services/employees.py, `employees_as_of_query`: the candidates that it takes from the
-- index of the job history do not change what it answers.
use hrus.Base.{
  ℕ, ◌≡◌, refl, sym, Bool, true, ◌&&◌, Option, none, some, List, [], ◌∷◌, arith, filter, any, ◌⊎◌,
  inl, inr, Bool-cases, ◌==◌,
}
use mathlib.Core.Option.{some-injective}
use hrus.Calendar.{Date}
use hrus.Models.CoreHr.{Employee, EmployeeJob}
use hrus.CoreHr.JobHistory.{
  supersedes, later_of, latest, in_effect, job_as_of, matches_id, is_member, is_candidate,
  is_selected,
}

later_of-either :
    (x : EmployeeJob) (o : Option EmployeeJob) (j : EmployeeJob)
    → later_of x o ≡ some j
    → (x ≡ j) ⊎ (o ≡ some j)
later_of-either x none j h = inl (some-injective _ _ h)
later_of-either x (some y) j h = elim (Bool-cases (supersedes y x)) [
  | inl e ↦ inr (rw e at h)
  | inr e ↦ inl (some-injective _ _ (rw e at h))
]

-- The row found satisfies the query, so a query that it satisfies finds some row.
latest-any :
    (q r s : EmployeeJob → Bool) (j : EmployeeJob) (jobs : List EmployeeJob)
    → ((x : EmployeeJob) → q x ≡ true → r x ≡ true → s x ≡ true)
    → latest (filter q jobs) ≡ some j
    → r j ≡ true
    → any s jobs ≡ true
unfolding latest filter any
latest-any q r s j [] k h e = ground arith
latest-any q r s j (x ∷ jobs) k h e = elim (Bool-cases (q x)) [
  | inl p ↦ elim (later_of-either x (latest (filter q jobs)) j (rw p at h)) [
    | inl same ↦ rw (k x p (rw (sym same) at e)) refl
    | inr found ↦ rw (latest-any q r s j jobs k found e) (ground arith)
  ]
  | inr p ↦ rw (latest-any q r s j jobs k (rw p at h) e) (ground arith)
]

-- An employee whose row in effect passes the filters has some row that passes them.
module _ (jobs : List EmployeeJob) (t : ℕ) (as_of : Date) (supervisor unit : Option ℕ) (e : ℕ) where
  member-candidate :
      (o : Option EmployeeJob)
      → job_as_of jobs t e as_of ≡ o
      → is_member supervisor unit o ≡ true
      → is_candidate jobs t supervisor unit e ≡ true
  unfolding job_as_of
  member-candidate none h m = ground arith
  member-candidate (some j) h m =
      latest-any (in_effect t e as_of)
        (λ x.
          matches_id supervisor x.supervisor_employee_id && matches_id unit (some x.org_unit_id))
        _ j jobs (λ x a b. ground arith) h (ground arith)

-- The query selects an employee of the tenant exactly if the row in effect on the date is active and
-- has the supervisor and the unit asked for: testing the candidates first loses no employee and adds
-- none, for any table of rows and any filters.
pub is_selected-exact :
    (jobs : List EmployeeJob) (t : ℕ) (as_of : Date) (supervisor unit : Option ℕ) (e : Employee)
    → is_selected jobs t as_of supervisor unit e
      ≡ (e.tenant_id == t && is_member supervisor unit (job_as_of jobs t e.id as_of))
unfolding is_selected
is_selected-exact jobs t as_of supervisor unit e =
    elim (Bool-cases (is_member supervisor unit (job_as_of jobs t e.id as_of))) [
      | inl m ↦ rw (m, member-candidate jobs t as_of supervisor unit e.id _ refl m) (ground arith)
      | inr m ↦ rw m (ground arith)
    ]
