-- ===== src/Jobs/Execute.antt =====
-- backend/app/jobs/runner.py: a chunk is executed, a failure is recorded, and the run is finalised.
-- Each function is the one transaction that the source commits; `run_chunk` is several in order.
use hrus.Base.{
  ℕ, suc, ◌+◌, ◌*◌, ◌^◌, Bool, ◌&&◌, Option, none, some, List, [], ◌∷◌, String, str_eq, ◌==◌, leb,
  ltb, if◌then◌else◌, find, filter, count, update_first,
}
use hrus.Models.Jobs.{
  JobRun, JobRunStatus, JobRunChunk, ChunkStatus, JobLogLevel, JobDefinition, JobDb, Outcome,
  Counts, is_running, is_pending, is_success, is_failed,
}
use hrus.Jobs.Service.{add_log, find_definition, is_run, is_chunk_of, change_run}

-- `Counter.update`
unfoldable pub add_count : String → ℕ → Counts → Counts
add_count k n [] = (k, n) ∷ []
add_count k n ((j, m) ∷ cs) = if str_eq j k then (j, m + n) ∷ cs else (j, m) ∷ add_count k n cs

unfoldable pub merge_counts : Counts → Counts → Counts
merge_counts totals [] = totals
merge_counts totals ((k, n) ∷ cs) = merge_counts (add_count k n totals) cs

unfoldable pub total_counts : Counts → List JobRunChunk → Counts
total_counts totals [] = totals
total_counts totals (c ∷ cs) = total_counts (merge_counts totals c.output) cs

unfoldable pub is_chunk : ℕ → ℕ → ℕ → JobRunChunk → Bool
is_chunk tenant_id run_id chunk_id c = is_chunk_of tenant_id run_id c && c.id == chunk_id

abbrev pub succeeded : ℕ → Counts → JobRunChunk → JobRunChunk
succeeded now output c = record c {
  status = ChunkStatus.success;
  attempts = suc c.attempts;
  error = none;
  output = output;
  finished_at = some now;
}

-- How `_execute_chunk` ends: nothing to do, done, or an exception, which rolls back.
pub data Execution (W : Type 0) : Type 0 where
  skipped : Execution W
  executed : JobDb W → Execution W
  crashed : String → Execution W

module _ {W : Type 0} where
  -- A change of the chunk that was loaded.
  unfoldable pub change_chunk : JobRunChunk → (JobRunChunk → JobRunChunk) → JobDb W → JobDb W
  change_chunk c f db = record db {
    chunks = update_first (is_chunk c.tenant_id c.job_run_id c.id) f db.chunks;
  }

module _ {W : Type 0} (defs : List (JobDefinition W)) (now : ℕ) where
  -- The savepoint is rolled back on a dry run, and the business data stay.
  abbrev pub store : JobRun → JobRunChunk → JobDb W → Outcome (W × Counts) → Execution W
  store run c db (Outcome.raised e) = crashed e
  store run c db (Outcome.done (world, counts)) = executed (
      change_chunk c (succeeded now counts)
        (record db { world = if run.dry_run then db.world else world }))

  abbrev pub execute_with :
      JobRun → JobRunChunk → JobDb W → JobDefinition W → Option String → Execution W
  execute_with run c db d none = crashed "ValidationError"
  execute_with run c db d (some params) = store run c db (
      d.run_chunk db.world (record {
        tenant_id = run.tenant_id;
        run_id = run.id;
        chunk_no = c.chunk_no;
        params = params;
        chunk = c.params;
        dry_run = run.dry_run;
        actor_user_id = run.requested_by_user_id;
      }))

  abbrev pub execute_known : JobRun → JobRunChunk → JobDb W → Option (JobDefinition W) → Execution W
  execute_known run c db none = crashed "NotFoundError"
  execute_known run c db (some d) = execute_with run c db d (d.validate run.params)

  abbrev pub execute_run : JobRunChunk → JobDb W → Option JobRun → Execution W
  execute_run c db none = skipped
  execute_run c db (some run) =
      if is_running run.status
      then execute_known run c db (find_definition defs run.job_code)
      else skipped

  abbrev pub execute_found : ℕ → ℕ → JobDb W → Option JobRunChunk → Execution W
  execute_found tenant_id run_id db none = skipped
  execute_found tenant_id run_id db (some c) =
      execute_run c db (find (is_run tenant_id run_id) db.runs)

  unfoldable pub execute_chunk : ℕ → ℕ → ℕ → JobDb W → Execution W
  execute_chunk tenant_id run_id chunk_id db =
      execute_found tenant_id run_id db
        (find (λ c. is_chunk tenant_id run_id chunk_id c && is_pending c.status) db.chunks)

abbrev pub retry_base_seconds : ℕ
retry_base_seconds = 10

-- The last attempt fails for good; an earlier one leaves the chunk pending.
abbrev pub attempted : ℕ → ℕ → String → JobRunChunk → JobRunChunk
attempted now max_attempts e c =
    if leb max_attempts (suc c.attempts)
    then record c {
      attempts = suc c.attempts;
      error = some e;
      status = ChunkStatus.failed;
      finished_at = some now;
    }
    else record c { attempts = suc c.attempts; error = some e }

-- The seconds until the next attempt, if there is one.
abbrev pub retry_in : ℕ → ℕ → Option ℕ
retry_in max_attempts attempts =
    if leb max_attempts (suc attempts) then none else some (retry_base_seconds * 2 ^ attempts)

-- How `_record_failure` ends: with a time to retry, or by an exception of its own.
pub data Recorded (W : Type 0) : Type 0 where
  recorded : JobDb W → Option ℕ → Recorded W
  unrecorded : Recorded W

abbrev final_level : ℕ → ℕ → JobLogLevel
final_level max_attempts attempts =
    if leb max_attempts (suc attempts) then JobLogLevel.error else JobLogLevel.warning

module _ {W : Type 0} (defs : List (JobDefinition W)) (now : ℕ) where
  abbrev pub record_known :
      String → JobRun → JobRunChunk → JobDb W → Option (JobDefinition W) → Recorded W
  record_known e run c db none = unrecorded
  record_known e run c db (some d) =
      recorded
        (add_log run (final_level d.max_attempts c.attempts) (some c.chunk_no)
          (change_chunk c (attempted now d.max_attempts e) db))
        (retry_in d.max_attempts c.attempts)

  abbrev pub record_run : String → JobRunChunk → JobDb W → Option JobRun → Recorded W
  record_run e c db none = recorded db none
  record_run e c db (some run) =
      if is_pending c.status
      then record_known e run c db (find_definition defs run.job_code)
      else recorded db none

  abbrev pub record_found : String → ℕ → ℕ → JobDb W → Option JobRunChunk → Recorded W
  record_found e tenant_id run_id db none = recorded db none
  record_found e tenant_id run_id db (some c) =
      record_run e c db (find (is_run tenant_id run_id) db.runs)

  -- `_record_failure`; the chunk is looked up by its id alone.
  unfoldable pub record_failure : ℕ → ℕ → ℕ → String → JobDb W → Recorded W
  record_failure tenant_id run_id chunk_id e db =
      record_found e tenant_id run_id db
        (find (λ c. c.tenant_id == tenant_id && c.id == chunk_id) db.chunks)

-- How many chunks of a run have a status.
unfoldable pub count_status : (ChunkStatus → Bool) → ℕ → ℕ → List JobRunChunk → ℕ
count_status p tenant_id run_id cs = count (λ c. is_chunk_of tenant_id run_id c && p c.status) cs

-- The end of a run, from the numbers of its chunks that succeeded and failed.
unfoldable pub verdict : ℕ → ℕ → JobRunStatus
verdict done failed =
    if failed == 0
    then JobRunStatus.success
    else if done == 0
    then JobRunStatus.failed
    else JobRunStatus.partial

abbrev pub progressed : ℕ → ℕ → ℕ → JobRun → JobRun
progressed now done failed r = record r {
  chunks_done = done;
  chunks_failed = failed;
  updated_at = now;
}

abbrev pub finished_run : ℕ → ℕ → ℕ → Counts → JobRun → JobRun
finished_run now done failed output r = record r {
  chunks_done = done;
  chunks_failed = failed;
  output = output;
  finished_at = some now;
  status = verdict done failed;
}

abbrev level_of : ℕ → JobLogLevel
level_of failed = if failed == 0 then JobLogLevel.info else JobLogLevel.error

module _ {W : Type 0} (now : ℕ) where
  abbrev pub finalize_running : JobRun → JobDb W → JobDb W
  finalize_running run db =
      let done = count_status is_success run.tenant_id run.id db.chunks in
      let failed = count_status is_failed run.tenant_id run.id db.chunks in
      let output =
        total_counts []
          (filter (λ c. is_chunk_of run.tenant_id run.id c && is_success c.status) db.chunks) in
      if ltb 0 (count_status is_pending run.tenant_id run.id db.chunks)
      then change_run run (progressed now done failed) db
      else add_log run (level_of failed) none
          (change_run run (finished_run now done failed output) db)

  abbrev pub finalize_found : Option JobRun → JobDb W → JobDb W
  finalize_found none db = db
  finalize_found (some run) db = if is_running run.status then finalize_running run db else db

  unfoldable pub finalize : ℕ → ℕ → JobDb W → JobDb W
  finalize tenant_id run_id db = finalize_found (find (is_run tenant_id run_id) db.runs) db

-- `ChunkOutcome`, or the exception that leaves `run_chunk`.
pub data ChunkOutcome : Type 0 where
  outcome : Option ℕ → ChunkOutcome
  raises : ChunkOutcome

module _ {W : Type 0} (defs : List (JobDefinition W)) (now : ℕ) (tenant_id run_id : ℕ) where
  abbrev pub after_failure : JobDb W → Recorded W → JobDb W × ChunkOutcome
  after_failure db unrecorded = (db, raises)
  after_failure db (recorded db' retry) = (finalize now tenant_id run_id db', outcome retry)

  abbrev pub after_execution : ℕ → JobDb W → Execution W → JobDb W × ChunkOutcome
  after_execution chunk_id db skipped = (db, outcome none)
  after_execution chunk_id db (executed db') = (finalize now tenant_id run_id db', outcome none)
  after_execution chunk_id db (crashed e) =
      after_failure db (record_failure defs now tenant_id run_id chunk_id e db)

  unfoldable pub run_chunk : ℕ → JobDb W → JobDb W × ChunkOutcome
  run_chunk chunk_id db =
      after_execution chunk_id db (execute_chunk defs now tenant_id run_id chunk_id db)
