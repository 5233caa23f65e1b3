-- ===== src/Jobs/Single.antt =====
-- Each operation of backend/app/services/jobs.py and backend/app/jobs/runner.py keeps one active run
-- of a job at most, and so does every sequence of them.
use hrus.Base.{
  ℕ, ◌≡◌, refl, false, not, ◌&&◌, Option, none, some, List, String, arith, find, find-holds, any,
  inl, inr, Option-cases,
}
use hrus.Errors.{Code, Result, ok, err, not_found, rule_violation, conflict}
use hrus.Tx.{or_raise, raise_if, Commits, Commits-read, Yields, raise_if-Yields, or_raise-Yields}
use hrus.Models.Jobs.{JobRun, JobDefinition, JobDb, JobLogLevel, is_active, is_retryable}
use hrus.Jobs.Service.{
  RunInput, is_run, is_active_run, change_run, add_log, add_run, cancelled_run, retried_run,
  new_run, get_run, cancel_run, cancel_chunks, retry_run, retry_chunks, ensure_not_running,
  get_definition, find_definition, create_new, create_run, lift, find_by_key,
}
use hrus.Jobs.Active.{
  IsSingle, is_run_ids, change_run-IsSingle, activate-IsSingle, add_run-IsSingle, is_active_run_key,
}

-- What `_get_run` establishes of the row that it returns.
pub record Runs {W : Type 0} (db : JobDb W) (t r : ℕ) (run : JobRun) : Type 0 where
  pub by_id : find (is_run t r) db.runs ≡ some run
  pub found : find (is_run run.tenant_id run.id) db.runs ≡ some run

pub found-Runs :
    {W : Type 0} (db : JobDb W) (t r : ℕ) (run : JobRun)
    → find (is_run t r) db.runs ≡ some run
    → Runs db t r run
found-Runs db t r run h =
    let ids = is_run_ids t r run (find-holds (is_run t r) db.runs run h) in
    record { by_id = h; found = simp (ids.0, ids.1) h }

module _ {W : Type 0} (db : JobDb W) where
  get_run-Yields : (t r : ℕ) → Yields (λ run s. (s ≡ db) × Runs db t r run) (get_run t r db)
  unfolding get_run
  get_run-Yields t r = elim (Option-cases (find (is_run t r) db.runs)) [
    | inl e ↦ rw e tt
    | inr (run, e) ↦ rw e (refl, found-Runs db t r run e)
  ]

  ensure-Yields :
      (t : ℕ) (code : String)
      → Yields
          (λ _ s. (s ≡ db) × (any (is_active_run t code) db.runs ≡ false))
          (ensure_not_running t code db)
  unfolding ensure_not_running
  ensure-Yields t code = raise_if-Yields _ (conflict Code.job_already_running) db

  -- Cancelling a run's chunks and logging leave the runs.
  cancelled-IsSingle :
      (now t r : ℕ) (run : JobRun)
      → Runs db t r run
      → IsSingle db
      → IsSingle (
          add_log run JobLogLevel.warning none
            (change_run run (cancelled_run now) (cancel_chunks run db)))
  unfolding add_log cancel_chunks is_active_run
  cancelled-IsSingle now t r run f s =
      change_run-IsSingle (cancel_chunks run db) run (cancelled_run now) f.found
        (λ t' code e. ground arith) s

  pub cancel_run-IsSingle : (now t r : ℕ) → IsSingle db → Commits IsSingle (cancel_run now t r db)
  unfolding cancel_run
  cancel_run-IsSingle now t r s =
      Commits-read IsSingle (Runs db t r) (get_run t r) _ db (get_run-Yields t r) λ run f.
        Commits-read IsSingle (λ _. not (is_active run.status) ≡ false)
          (raise_if (not (is_active run.status)) (rule_violation Code.job_not_active)) _ db
          (raise_if-Yields _ _ db) λ _ _. cancelled-IsSingle now t r run f s

  retried-IsSingle :
      (t r : ℕ) (run : JobRun)
      → Runs db t r run
      → any (is_active_run run.tenant_id run.job_code) db.runs ≡ false
      → IsSingle db
      → IsSingle
          (add_log run JobLogLevel.info none (change_run run retried_run (retry_chunks run db)))
  unfolding add_log retry_chunks
  retried-IsSingle t r run f idle s =
      activate-IsSingle (retry_chunks run db) run retried_run f.found
        (λ t' code e. is_active_run_key t' code (retried_run run) e) idle s

  pub retry_run-IsSingle :
      (defs : List (JobDefinition W)) (t r : ℕ)
      → IsSingle db
      → Commits IsSingle (retry_run defs t r db)
  unfolding retry_run get_definition
  retry_run-IsSingle defs t r s =
      Commits-read IsSingle (Runs db t r) (get_run t r) _ db (get_run-Yields t r) λ run f.
        Commits-read IsSingle (λ _. not (is_retryable run.status) ≡ false)
          (raise_if (not (is_retryable run.status)) (rule_violation Code.job_not_retryable)) _ db
          (raise_if-Yields _ _ db)
          λ _ _.
            Commits-read IsSingle
              (λ _. any (is_active_run run.tenant_id run.job_code) db.runs ≡ false)
              (ensure_not_running run.tenant_id run.job_code) _ db
              (ensure-Yields run.tenant_id run.job_code)
              λ _ idle.
                Commits-read IsSingle (λ d. find_definition defs run.job_code ≡ some d)
                  (or_raise not_found (find_definition defs run.job_code)) _ db
                  (or_raise-Yields _ _ db) λ _ _. retried-IsSingle t r run f idle s

  lift-Yields : {A : Type 0} (x : Result A) → Yields (λ _ s. (s ≡ db) × Unit {0}) (lift x db)
  lift-Yields (ok a) = (refl, tt)
  lift-Yields (err e) = tt

  created-IsSingle :
      (t now : ℕ) (input : RunInput) (params : String)
      → any (is_active_run t input.job_code) db.runs ≡ false
      → IsSingle db
      → IsSingle (
          add_log
            (new_run now db.next_id t input params)
            JobLogLevel.info
            none
            (add_run (new_run now db.next_id t input params) db))
  unfolding add_log
  created-IsSingle t now input params idle s =
      add_run-IsSingle db (new_run now db.next_id t input params) idle s

  create_new-IsSingle :
      (now t : ℕ) (d : JobDefinition W) (input : RunInput) (existing : Option JobRun)
      → IsSingle db
      → Commits IsSingle (create_new now t d input existing db)
  create_new-IsSingle now t d input (some existing) s = s
  create_new-IsSingle now t d input none s =
      Commits-read IsSingle (λ _. (input.dry_run && not d.supports_dry_run) ≡ false)
        (raise_if (input.dry_run && not d.supports_dry_run)
          (rule_violation Code.dry_run_not_supported))
        _ db (raise_if-Yields _ _ db)
        λ _ _.
          Commits-read IsSingle (λ p. d.validate input.params ≡ some p)
            (or_raise (rule_violation Code.invalid_job_params) (d.validate input.params)) _ db
            (or_raise-Yields _ _ db)
            λ parsed _.
              Commits-read IsSingle (λ _. Unit {0}) (lift (d.prepare db.world t parsed)) _ db
                (lift-Yields (d.prepare db.world t parsed))
                λ prepared _.
                  Commits-read IsSingle (λ _. any (is_active_run t input.job_code) db.runs ≡ false)
                    (ensure_not_running t input.job_code) _ db (ensure-Yields t input.job_code)
                    λ _ idle. created-IsSingle t now input prepared idle s

  pub create_run-IsSingle :
      (defs : List (JobDefinition W)) (now t : ℕ) (input : RunInput)
      → IsSingle db
      → Commits IsSingle (create_run defs now t input db)
  unfolding create_run get_definition
  create_run-IsSingle defs now t input s =
      Commits-read IsSingle (λ d. find_definition defs input.job_code ≡ some d)
        (or_raise not_found (find_definition defs input.job_code)) _ db (or_raise-Yields _ _ db)
        λ d _. create_new-IsSingle now t d input (find_by_key t input.idempotency_key db.runs) s
