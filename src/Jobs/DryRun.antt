-- ===== src/Jobs/DryRun.antt =====
-- A dry run: the logic of a chunk runs, and its changes of the business data are discarded.
use hrus.Base.{
  ℕ, ◌≡◌, refl, sym, ◌∙◌, true, Option, none, some, List, String, find, inl, inr, Bool-cases,
}
use mathlib.Core.Option.{some-injective}
use hrus.Models.Jobs.{JobRun, JobRunChunk, JobDefinition, JobDb, is_pending}
use hrus.Jobs.Service.{is_run, find_definition, add_log}
use hrus.Jobs.Execute.{
  Execution, skipped, executed, crashed, Recorded, recorded, unrecorded, change_chunk,
  execute_chunk, record_known, record_run, record_found, record_failure, after_failure,
  after_execution, run_chunk,
}
use hrus.Jobs.Once.{Commits, IsWorked, execute_chunk-IsWorked, finalize-IsSettled}

-- Recording a failure changes neither the business data nor the runs.
abbrev pub Keeps : {W : Type 0} → JobDb W → Recorded W → Type 0
Keeps db unrecorded = Unit
Keeps db (recorded db' retry) = (db'.world ≡ db.world) × (db'.runs ≡ db.runs)

module _ {W : Type 0} (defs : List (JobDefinition W)) (now t r i : ℕ) (db : JobDb W) where
  record_known-Keeps :
      (e : String) (run : JobRun) (c : JobRunChunk) (o : Option (JobDefinition W))
      → Keeps db (record_known defs now e run c db o)
  unfolding add_log change_chunk
  record_known-Keeps e run c none = tt
  record_known-Keeps e run c (some d) = (refl, refl)

  record_run-Keeps :
      (e : String) (c : JobRunChunk) (o : Option JobRun) → Keeps db (record_run defs now e c db o)
  record_run-Keeps e c none = (refl, refl)
  record_run-Keeps e c (some run) = elim (Bool-cases (is_pending c.status)) [
    | inl h ↦ rw h (record_known-Keeps e run c (find_definition defs run.job_code))
    | inr h ↦ rw h (refl, refl)
  ]

  record_found-Keeps :
      (e : String) (o : Option JobRunChunk) → Keeps db (record_found defs now e t r db o)
  record_found-Keeps e none = (refl, refl)
  record_found-Keeps e (some c) = record_run-Keeps e c _

  pub record_failure-Keeps : (e : String) → Keeps db (record_failure defs now t r i e db)
  unfolding record_failure
  record_failure-Keeps e = record_found-Keeps e _

  after_failure-Keeps :
      (x : Recorded W) → Keeps db x → (after_failure defs now t r db x).0.world ≡ db.world
  after_failure-Keeps unrecorded h = refl
  after_failure-Keeps (recorded db' retry) h = (finalize-IsSettled now t r db').world ∙ h.0

  after_execution-keeps :
      (x : Execution W)
      → Commits (λ db'. db'.world ≡ db.world) x
      → (after_execution defs now t r i db x).0.world ≡ db.world
  after_execution-keeps skipped h = refl
  after_execution-keeps (executed db') h = (finalize-IsSettled now t r db').world ∙ h
  after_execution-keeps (crashed e) h = after_failure-Keeps _ (record_failure-Keeps e)

  execute_chunk-keeps :
      (run : JobRun) (x : Execution W)
      → find (is_run t r) db.runs ≡ some run
      → run.dry_run ≡ true
      → Commits (IsWorked defs now t r i db) x
      → Commits (λ db'. db'.world ≡ db.world) x
  execute_chunk-keeps run skipped found dry h = tt
  execute_chunk-keeps run (crashed e) found dry h = tt
  execute_chunk-keeps run (executed db') found dry w =
      w.committed.kept (rw (some-injective _ _ (sym w.of_run ∙ found)) dry)

  -- Running a chunk of a dry run leaves the business data as they were, whether the chunk
  -- succeeds, fails or has nothing to do.
  pub run_chunk-dry :
      (run : JobRun)
      → find (is_run t r) db.runs ≡ some run
      → run.dry_run ≡ true
      → (run_chunk defs now t r i db).0.world ≡ db.world
  unfolding run_chunk
  run_chunk-dry run found dry =
      after_execution-keeps (execute_chunk defs now t r i db)
        (execute_chunk-keeps run _ found dry (execute_chunk-IsWorked defs now t r i db))
