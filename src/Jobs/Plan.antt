-- ===== src/Jobs/Plan.antt =====
-- backend/app/jobs/runner.py, `start_run`: the plan of a run and its chunks. The function is the one
-- transaction that the source commits, with the tasks that it sends afterwards.
use hrus.Base.{
  ℕ, zero, suc, ◌+◌, Option, none, some, List, [], ◌∷◌, ◌++◌, map, String, if◌then◌else◌, find,
  length,
}
use hrus.Models.Jobs.{
  JobRun, JobRunStatus, JobRunChunk, ChunkStatus, JobLogLevel, JobDefinition, JobDb, Task, Outcome,
  is_queued,
}
use hrus.Jobs.Service.{add_log, find_definition, is_run, change_run}

-- The chunks of a plan, numbered from `number` on.
unfoldable pub make_chunks : JobRun → ℕ → ℕ → List String → List JobRunChunk
make_chunks run id number [] = []
make_chunks run id number (params ∷ rest) =
    record {
      id = id;
      tenant_id = run.tenant_id;
      job_run_id = run.id;
      chunk_no = number;
      params = params;
      status = ChunkStatus.pending;
      attempts = 0;
      output = [];
      error = none;
      finished_at = none;
    }
    ∷ make_chunks run (suc id) (suc number) rest

abbrev pub failed_plan : ℕ → String → JobRun → JobRun
failed_plan now e r = record r {
  status = JobRunStatus.failed;
  error = some e;
  finished_at = some now;
}

abbrev pub started_run : ℕ → ℕ → JobRun → JobRun
started_run now zero r = record r {
  status = JobRunStatus.success;
  started_at = some now;
  chunks_total = 0;
  finished_at = some now;
  output = [];
}
started_run now (suc n) r = record r {
  status = JobRunStatus.running;
  started_at = some now;
  chunks_total = suc n;
}

module _ {W : Type 0} (defs : List (JobDefinition W)) (now : ℕ) where
  abbrev pub planned : JobRun → String → Outcome (List String) → JobDb W → JobDb W × List Task
  planned run queue (Outcome.raised e) db =
      (add_log run JobLogLevel.error none (change_run run (failed_plan now e) db), [])
  planned run queue (Outcome.done plan) db =
      let chunks = make_chunks run db.next_id 1 plan in
      (
        add_log run JobLogLevel.info none (
            change_run run (started_run now (length chunks))
              (record db { chunks = db.chunks ++ chunks; next_id = db.next_id + length chunks })),
        map (λ (c : JobRunChunk). Task.run_chunk run.tenant_id run.id c.id queue) chunks,
      )

  -- The parameters are validated again, which fails as the plan does.
  abbrev pub plan_of : JobDefinition W → JobRun → W → Outcome (List String)
  plan_of d run world = elim (d.validate run.params) [
    | none ↦ Outcome.raised "ValidationError"
    | some params ↦ d.plan world run.tenant_id params
  ]

  -- An unknown job raises, and the transaction rolls back.
  abbrev pub start_known : JobRun → Option (JobDefinition W) → JobDb W → JobDb W × List Task
  start_known run none db = (db, [])
  start_known run (some d) db = planned run d.queue (plan_of d run db.world) db

  abbrev pub start_found : Option JobRun → JobDb W → JobDb W × List Task
  start_found none db = (db, [])
  start_found (some run) db =
      if is_queued run.status
      then start_known run (find_definition defs run.job_code) db
      else (db, [])

  unfoldable pub start_run : ℕ → ℕ → JobDb W → JobDb W × List Task
  start_run tenant_id run_id db = start_found (find (is_run tenant_id run_id) db.runs) db
