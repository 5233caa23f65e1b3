-- ===== src/Jobs/Active.antt =====
-- backend/app/services/jobs.py and backend/app/jobs/runner.py: a tenant has one active run of a job
-- at most, whatever operations run and in whatever order. The unique index uq_job_run_active of
-- backend/app/models/jobs.py states the same of the table.
use hrus.Base.{
  ℕ, ◌≡◌, sym, ◌≤◌, Bool, true, false, some, List, [], ◌∷◌, String, arith, find, any, any-count,
  count, count-append, count-update_first, update_first, inl, inr, Bool-cases, str_eq→eq,
}
use hrus.Models.Jobs.{JobRun, JobDb}
use hrus.Jobs.Service.{is_run, is_active_run, change_run, add_run}

-- Each job has one active run at most.
abbrev pub IsSingle : {W : Type 0} → JobDb W → Type 0
IsSingle db = (t : ℕ) (code : String) → count (is_active_run t code) db.runs ≤ 1

pub is_run_ids :
    (t r : ℕ) (run : JobRun) → is_run t r run ≡ true → (run.tenant_id ≡ t) × (run.id ≡ r)
unfolding is_run
is_run_ids t r run h = ground arith

-- An active run of a job is of that tenant and has that code.
pub is_active_run_key :
    (t : ℕ) (code : String) (run : JobRun)
    → is_active_run t code run ≡ true
    → (run.tenant_id ≡ t) × (run.job_code ≡ code)
unfolding is_active_run
is_active_run_key t code run h = (ground arith, str_eq→eq run.job_code code (ground arith))

no_growth :
    (p q : JobRun → Bool) (f : JobRun → JobRun) (xs : List JobRun) (x : JobRun)
    → find q xs ≡ some x
    → (p (f x) ≡ true → p x ≡ true)
    → count p (update_first q f xs) ≤ count p xs
no_growth p q f xs x h k = ground (arith, count-update_first p q f xs x h, k)

from_zero :
    (p q : JobRun → Bool) (f : JobRun → JobRun) (xs : List JobRun) (x : JobRun)
    → find q xs ≡ some x
    → count p xs ≡ 0
    → count p (update_first q f xs) ≤ 1
from_zero p q f xs x h z = ground (arith, count-update_first p q f xs x h)

module _ {W : Type 0} (db : JobDb W) (run : JobRun) where
  -- A change of a run's row that makes no run active keeps the invariant.
  pub change_run-IsSingle :
      (f : JobRun → JobRun)
      → find (is_run run.tenant_id run.id) db.runs ≡ some run
      → ((t : ℕ) (code : String)
          → is_active_run t code (f run) ≡ true
          → is_active_run t code run ≡ true)
      → IsSingle db
      → IsSingle (change_run run f db)
  unfolding change_run
  change_run-IsSingle f found keep s t code = ground (
    arith,
    s t code,
    no_growth (is_active_run t code) (is_run run.tenant_id run.id) f db.runs run found
        (keep t code),
  )

  -- So does one that makes a run active whose job has no active run.
  pub activate-IsSingle :
      (f : JobRun → JobRun)
      → find (is_run run.tenant_id run.id) db.runs ≡ some run
      → ((t : ℕ) (code : String)
          → is_active_run t code (f run) ≡ true
          → (run.tenant_id ≡ t) × (run.job_code ≡ code))
      → any (is_active_run run.tenant_id run.job_code) db.runs ≡ false
      → IsSingle db
      → IsSingle (change_run run f db)
  unfolding change_run
  activate-IsSingle f found key idle s t code = elim (Bool-cases (is_active_run t code (f run))) [
    | inl e ↦
        let k = key t code e in
        from_zero (is_active_run t code) (is_run run.tenant_id run.id) f db.runs run found
          (any-count (is_active_run t code) db.runs (rw (sym k.0, sym k.1) idle))
    | inr e ↦ ground (
      arith,
      s t code,
      no_growth (is_active_run t code) (is_run run.tenant_id run.id) f db.runs run found,
    )
  ]

  -- A new run of a job that has no active run.
  pub add_run-IsSingle :
      any (is_active_run run.tenant_id run.job_code) db.runs ≡ false
      → IsSingle db
      → IsSingle (add_run run db)
  unfolding add_run count
  add_run-IsSingle idle s t code = elim (Bool-cases (is_active_run t code run)) [
    | inl e ↦
        let k = is_active_run_key t code run e in
        ground (
          arith,
          count-append (is_active_run t code) db.runs (run ∷ []),
          any-count (is_active_run t code) db.runs (rw (sym k.0, sym k.1) idle),
        )
    | inr e ↦ ground (arith, s t code, count-append (is_active_run t code) db.runs (run ∷ []))
  ]
