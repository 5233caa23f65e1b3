-- ===== src/CoreHr/Newest.antt =====
-- backend/app/services/employees.py: which row of a history is the newest, when a row is added to it.
use hrus.Base.{
  ℕ, ◌≡◌, refl, sym, ◌≤◌, ◌<◌, Bool, true, false, ◌&&◌, Option, none, some, List, [], ◌∷◌, ◌++◌,
  arith, All, filter, inl, inr, Bool-cases, if◌then◌else◌,
}
use hrus.Calendar.{Date, ordinal, same_date}
use hrus.Errors.{ok}
use hrus.Models.CoreHr.{EmployeeJob}
use hrus.Rules.CoreHr.{in_sequence}
use hrus.CoreHr.JobHistory.{supersedes, latest, is_history, in_effect, job_as_of}
use hrus.CoreHr.AddJob.{later_effdt, max_effdt, greater_seq, max_effseq, next_seq}

-- A bound of an aggregate that is NULL where there are no rows.
abbrev pub IsWithin : {A : Type 0} → (A → Type 0) → Option A → Type 0
IsWithin P none = Unit
IsWithin P (some a) = P a

pub in_sequence-IsWithin :
    (d : Date) (o : Option Date) → in_sequence d o ≡ ok tt → IsWithin (λ e. ordinal e ≤ ordinal d) o
in_sequence-IsWithin d none h = tt
in_sequence-IsWithin d (some e) h = ground arith

later_effdt-IsWithin :
    (d e : Date) (o : Option Date)
    → ordinal (later_effdt e o) ≤ ordinal d
    → (ordinal e ≤ ordinal d) × IsWithin (λ x. ordinal x ≤ ordinal d) o
later_effdt-IsWithin d e none h = (h, tt)
later_effdt-IsWithin d e (some x) h = (ground arith, ground arith)

greater_seq-IsWithin :
    (n m : ℕ) (o : Option ℕ) → greater_seq m o < n → (m < n) × IsWithin (λ x. x < n) o
greater_seq-IsWithin n m none h = (h, tt)
greater_seq-IsWithin n m (some x) h = (ground arith, ground arith)

pub max_effdt-bounds :
    (p : EmployeeJob → Bool) (d : Date) (js : List EmployeeJob)
    → IsWithin (λ e. ordinal e ≤ ordinal d) (max_effdt (filter p js))
    → All (λ x. p x ≡ true → ordinal x.effdt ≤ ordinal d) js
unfolding max_effdt filter
max_effdt-bounds p d [] h = tt
max_effdt-bounds p d (j ∷ js) h = elim (Bool-cases (p j)) [
  | inl e ↦
      let w = later_effdt-IsWithin d j.effdt (max_effdt (filter p js)) (rw e at h) in
      (λ _. w.0, max_effdt-bounds p d js w.1)
  | inr e ↦ (ground arith, max_effdt-bounds p d js (rw e at h))
]

pub max_effseq-bounds :
    (p : EmployeeJob → Bool) (n : ℕ) (js : List EmployeeJob)
    → IsWithin (λ x. x < n) (max_effseq (filter p js))
    → All (λ x. p x ≡ true → x.effseq < n) js
unfolding max_effseq filter
max_effseq-bounds p n [] h = tt
max_effseq-bounds p n (j ∷ js) h = elim (Bool-cases (p j)) [
  | inl e ↦
      let w = greater_seq-IsWithin n j.effseq (max_effseq (filter p js)) (rw e at h) in
      (λ _. w.0, max_effseq-bounds p n js w.1)
  | inr e ↦ (ground arith, max_effseq-bounds p n js (rw e at h))
]

pub next_seq-IsWithin : (o : Option ℕ) → IsWithin (λ x. x < next_seq o) o
next_seq-IsWithin none = tt
next_seq-IsWithin (some n) = omega arith

-- A row that supersedes all that a query finds is the one that it finds.
latest-newest :
    (q : EmployeeJob → Bool) (job : EmployeeJob) (jobs : List EmployeeJob)
    → All (λ x. q x ≡ true → supersedes job x ≡ true) jobs
    → latest (filter q (jobs ++ job ∷ [])) ≡ (if q job then some job else latest (filter q jobs))
unfolding latest filter
latest-newest q job [] h = ground arith
latest-newest q job (x ∷ jobs) h = ground (arith, latest-newest q job jobs h.1, h.0)

module _ (t e : ℕ) (d : Date) where
  -- The rows of the employee are of no later date, and those of the date have smaller numbers.
  pub superseded :
      (job : EmployeeJob) (n : ℕ) (js : List EmployeeJob)
      → job.effdt ≡ d
      → job.effseq ≡ n
      → All (λ x. is_history t e x ≡ true → ordinal x.effdt ≤ ordinal d) js
      → All (λ x. (is_history t e x && same_date x.effdt d) ≡ true → x.effseq < n) js
      → All (λ x. is_history t e x ≡ true → supersedes job x ≡ true) js
  superseded job n [] hd hn u v = tt
  superseded job n (x ∷ js) hd hn u v =
      (λ k. rw (hd, hn) (ground (arith, u.0 k, v.0)), superseded job n js hd hn u.1 v.1)

filter-other :
    (q : EmployeeJob → Bool) (job : EmployeeJob) (jobs : List EmployeeJob)
    → q job ≡ false
    → filter q (jobs ++ job ∷ []) ≡ filter q jobs
unfolding filter
filter-other q job [] h = ground arith
filter-other q job (x ∷ jobs) h = ground (arith, filter-other q job jobs h)

is_history_ids :
    (t e : ℕ) (j : EmployeeJob) → is_history t e j ≡ true → (j.tenant_id ≡ t) × (j.employee_id ≡ e)
unfolding is_history
is_history_ids t e j h = ground arith

weaken :
    (t e : ℕ) (as_of : Date) (job : EmployeeJob) (js : List EmployeeJob)
    → All (λ x. is_history t e x ≡ true → supersedes job x ≡ true) js
    → All (λ x. in_effect t e as_of x ≡ true → supersedes job x ≡ true) js
weaken t e as_of job [] h = tt
weaken t e as_of job (x ∷ js) h = (λ k. h.0 (ground arith), weaken t e as_of job js h.1)

-- The row that a query by employee and date finds when `job` is added to the table.
abbrev pub found_after : List EmployeeJob → EmployeeJob → ℕ → ℕ → Date → Option EmployeeJob
found_after jobs job t e as_of =
    if in_effect t e as_of job then some job else job_as_of jobs t e as_of

pub job_as_of-added :
    (t e : ℕ) (as_of : Date) (job : EmployeeJob) (jobs : List EmployeeJob)
    → All (λ x. is_history job.tenant_id job.employee_id x ≡ true → supersedes job x ≡ true) jobs
    → job_as_of (jobs ++ job ∷ []) t e as_of ≡ found_after jobs job t e as_of
unfolding job_as_of
job_as_of-added t e as_of job jobs h = elim (Bool-cases (is_history t e job)) [
  | inl k ↦
      let ids = is_history_ids t e job k in
      latest-newest (in_effect t e as_of) job jobs
        (weaken t e as_of job jobs (simp (sym ids.0, sym ids.1) h))
  | inr k ↦ simp (k, filter-other (in_effect t e as_of) job jobs (ground arith)) refl
]
