-- ===== src/Jobs/Reach.antt =====
-- backend/app/jobs/runner.py keeps one active run of a job at most, and so does every interleaving of
-- the operations of services/jobs.py, of the workers and of other writes to the business data.
use hrus.Base.{
  ℕ, zero, suc, ◌+◌, ◌≡◌, refl, ◌&&◌, true, Option, none, some, List, [], ◌++◌, String, arith, find,
  inl, inr, filter, length, Bool-cases, ltb,
}
use mathlib.Core.Path.{subst}
use hrus.Errors.{ok}
use hrus.Tx.{Commits}
use hrus.Models.Jobs.{
  JobRun, JobRunStatus, JobDefinition, JobDb, Counts, Task, Outcome, is_queued, is_running,
  is_pending, is_success, is_failed, is_active,
}
use hrus.Jobs.Service.{
  RunInput, is_run, is_active_run, add_log, create_run, cancel_run, retry_run, find_definition,
  is_chunk_of,
}
use hrus.Jobs.Plan.{
  failed_plan, started_run, make_chunks, planned, plan_of, start_known, start_found, start_run,
}
use hrus.Jobs.Execute.{
  Execution, skipped, executed, crashed, Recorded, recorded, unrecorded, execute_chunk,
  record_failure, progressed, finished_run, verdict, finalize_running, finalize_found, finalize,
  after_failure, after_execution, run_chunk, count_status, total_counts,
}
use hrus.Jobs.Once.{IsWorked, execute_chunk-IsWorked, Commits as Stores}
use hrus.Jobs.DryRun.{Keeps, record_failure-Keeps}
use hrus.Jobs.Active.{IsSingle, change_run-IsSingle}
use hrus.Jobs.Single.{
  Runs, found-Runs, cancel_run-IsSingle, retry_run-IsSingle, create_run-IsSingle,
}

queued-active : (s : JobRunStatus) → is_queued s ≡ true → is_active s ≡ true
queued-active JobRunStatus.queued h = refl
queued-active JobRunStatus.running h = refl
queued-active JobRunStatus.success h = ground arith
queued-active JobRunStatus.partial h = ground arith
queued-active JobRunStatus.failed h = ground arith
queued-active JobRunStatus.cancelled h = ground arith

-- What a planned or a finished run's status says of the run before.
module _ (now t : ℕ) (code : String) (run : JobRun) where
  started-active :
      (n : ℕ)
      → is_queued run.status ≡ true
      → is_active_run t code (started_run now n run) ≡ true
      → is_active_run t code run ≡ true
  unfolding is_active_run
  started-active zero q h = ground arith
  started-active (suc n) q h = ground (arith, queued-active run.status q)

  failed-active :
      (e : String)
      → is_active_run t code (failed_plan now e run) ≡ true
      → is_active_run t code run ≡ true
  unfolding is_active_run
  failed-active e h = ground arith

  progressed-active :
      (done failed : ℕ)
      → is_active_run t code (progressed now done failed run) ≡ true
      → is_active_run t code run ≡ true
  unfolding is_active_run
  progressed-active done failed h = h

  finished-active :
      (done failed : ℕ) (output : Counts)
      → is_active_run t code (finished_run now done failed output run) ≡ true
      → is_active_run t code run ≡ true
  unfolding is_active_run verdict
  finished-active done failed output h = ground arith

module _ {W : Type 0} (defs : List (JobDefinition W)) (now t r : ℕ) (db : JobDb W) where
  planned-IsSingle :
      (run : JobRun) (queue : String) (o : Outcome (List String))
      → Runs db t r run
      → is_queued run.status ≡ true
      → IsSingle db
      → IsSingle (planned defs now run queue o db).0
  unfolding add_log
  planned-IsSingle run queue (Outcome.raised e) f q s =
      change_run-IsSingle db run (failed_plan now e) f.found
        (λ t' code. failed-active now t' code run e) s
  planned-IsSingle run queue (Outcome.done plan) f q s =
      let chunks = make_chunks run db.next_id 1 plan in
      change_run-IsSingle
        (record db { chunks = db.chunks ++ chunks; next_id = db.next_id + length chunks }) run
        (started_run now (length chunks)) f.found
        (λ t' code. started-active now t' code run (length chunks) q) s

  start_known-IsSingle :
      (run : JobRun) (o : Option (JobDefinition W))
      → Runs db t r run
      → is_queued run.status ≡ true
      → IsSingle db
      → IsSingle (start_known defs now run o db).0
  start_known-IsSingle run none f q s = s
  start_known-IsSingle run (some d) f q s =
      planned-IsSingle run d.queue (plan_of defs now d run db.world) f q s

  start_found-IsSingle :
      (o : Option JobRun)
      → find (is_run t r) db.runs ≡ o
      → IsSingle db
      → IsSingle (start_found defs now o db).0
  start_found-IsSingle none h s = s
  start_found-IsSingle (some run) h s = elim (Bool-cases (is_queued run.status)) [
    | inl e ↦
        rw e (
          start_known-IsSingle run (find_definition defs run.job_code) (found-Runs db t r run h) e
            s)
    | inr e ↦ rw e s
  ]

  start_run-IsSingle : IsSingle db → IsSingle (start_run defs now t r db).0
  unfolding start_run
  start_run-IsSingle s = start_found-IsSingle _ refl s

  finalize_running-IsSingle :
      (run : JobRun) → Runs db t r run → IsSingle db → IsSingle (finalize_running now run db)
  unfolding add_log
  finalize_running-IsSingle run f s =
      let done = count_status is_success run.tenant_id run.id db.chunks in
      let failed = count_status is_failed run.tenant_id run.id db.chunks in
      let output =
        total_counts []
          (filter (λ c. is_chunk_of run.tenant_id run.id c && is_success c.status) db.chunks) in
      elim (Bool-cases (ltb 0 (count_status is_pending run.tenant_id run.id db.chunks))) [
        | inl e ↦ rw e (
            change_run-IsSingle db run (progressed now done failed) f.found
              (λ t' code. progressed-active now t' code run done failed) s)
        | inr e ↦ rw e (
            change_run-IsSingle db run (finished_run now done failed output) f.found
              (λ t' code. finished-active now t' code run done failed output) s)
      ]

  finalize_found-IsSingle :
      (o : Option JobRun)
      → find (is_run t r) db.runs ≡ o
      → IsSingle db
      → IsSingle (finalize_found now o db)
  finalize_found-IsSingle none h s = s
  finalize_found-IsSingle (some run) h s = elim (Bool-cases (is_running run.status)) [
    | inl e ↦ rw e (finalize_running-IsSingle run (found-Runs db t r run h) s)
    | inr e ↦ rw e s
  ]

  finalize-IsSingle : IsSingle db → IsSingle (finalize now t r db)
  unfolding finalize
  finalize-IsSingle s = finalize_found-IsSingle _ refl s

module _ {W : Type 0} (defs : List (JobDefinition W)) (now t r i : ℕ) (db : JobDb W) where
  same_runs : (db' : JobDb W) → db'.runs ≡ db.runs → IsSingle db → IsSingle db'
  same_runs db' h s t' code = rw h (s t' code)

  after_failure-IsSingle :
      (x : Recorded W) → Keeps db x → IsSingle db → IsSingle (after_failure defs now t r db x).0
  after_failure-IsSingle unrecorded k s = s
  after_failure-IsSingle (recorded db' retry) k s =
      finalize-IsSingle defs now t r db' (same_runs db' k.1 s)

  after_execution-IsSingle :
      (x : Execution W)
      → Stores (IsWorked defs now t r i db) x
      → IsSingle db
      → IsSingle (after_execution defs now t r i db x).0
  after_execution-IsSingle skipped w s = s
  after_execution-IsSingle (executed db') w s =
      finalize-IsSingle defs now t r db' (same_runs db' w.committed.runs s)
  after_execution-IsSingle (crashed e) w s =
      after_failure-IsSingle (record_failure defs now t r i e db)
        (record_failure-Keeps defs now t r i db e) s

  run_chunk-IsSingle : IsSingle db → IsSingle (run_chunk defs now t r i db).0
  unfolding run_chunk
  run_chunk-IsSingle s =
      after_execution-IsSingle (execute_chunk defs now t r i db)
        (execute_chunk-IsWorked defs now t r i db) s

-- One operation on the tables of the job framework: a service call that commits, a task of a worker,
-- or a write of another part of the program to the business data.
pub data Step {W : Type 0} (defs : List (JobDefinition W)) : JobDb W → JobDb W → Type 0 where
  create :
      (now t : ℕ) (input : RunInput) (result : JobRun × List Task) {db db' : JobDb W}
      → create_run defs now t input db ≡ ok (result, db')
      → Step defs db db'
  cancel :
      (now t r : ℕ) {db db' : JobDb W} → cancel_run now t r db ≡ ok (tt, db') → Step defs db db'
  retry :
      (t r : ℕ) (tasks : List Task) {db db' : JobDb W}
      → retry_run defs t r db ≡ ok (tasks, db')
      → Step defs db db'
  start : (now t r : ℕ) (db : JobDb W) → Step defs db (start_run defs now t r db).0
  chunk : (now t r i : ℕ) (db : JobDb W) → Step defs db (run_chunk defs now t r i db).0
  write : (world : W) (db : JobDb W) → Step defs db (record db { world = world })

pub data Reach {W : Type 0} (defs : List (JobDefinition W)) (start : JobDb W)
    : JobDb W → Type 0 where
  here : Reach defs start start
  next : {db db' : JobDb W} → Reach defs start db → Step defs db db' → Reach defs start db'

module _ {W : Type 0} (defs : List (JobDefinition W)) where
  Step-IsSingle : {db db' : JobDb W} → Step defs db db' → IsSingle db → IsSingle db'
  Step-IsSingle {db} {db'} (Step.create now t input result h) s =
      subst (Commits IsSingle) h (create_run-IsSingle db defs now t input s)
  Step-IsSingle {db} {db'} (Step.cancel now t r h) s =
      subst (Commits IsSingle) h (cancel_run-IsSingle db now t r s)
  Step-IsSingle {db} {db'} (Step.retry t r tasks h) s =
      subst (Commits IsSingle) h (retry_run-IsSingle db defs t r s)
  Step-IsSingle (Step.start now t r db) s = start_run-IsSingle defs now t r db s
  Step-IsSingle (Step.chunk now t r i db) s = run_chunk-IsSingle defs now t r i db s
  Step-IsSingle (Step.write world db) s = s

  -- Whatever operations run, in whatever order and with whatever results, a tenant has one active
  -- run of each job at most, if it was so at the start.
  pub Reach-IsSingle : {db db' : JobDb W} → IsSingle db → Reach defs db db' → IsSingle db'
  Reach-IsSingle s Reach.here = s
  Reach-IsSingle s (Reach.next path step) = Step-IsSingle step (Reach-IsSingle s path)
