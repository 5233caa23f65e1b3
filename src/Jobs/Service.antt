-- ===== src/Jobs/Service.antt =====
-- backend/app/services/jobs.py: create, cancel and retry a run.
use hrus.Base.{
  ℕ, suc, Bool, false, not, ◌&&◌, Option, none, some, List, [], ◌∷◌, ◌++◌, map, String, str_eq,
  ◌==◌, if◌then◌else◌, find, any, filter, update_first, update_all,
}
use hrus.Errors.{Code, Result, ok, err, not_found, rule_violation, conflict}
use hrus.Tx.{Tx, pure, raise, gets, modify, or_raise, raise_if, ◌>>=◌, ◌>>◌}
use hrus.Models.Jobs.{
  JobRun, JobRunStatus, JobTrigger, JobRunChunk, ChunkStatus, JobLogLevel, JobDefinition, JobDb,
  Task, is_active, is_retryable, is_pending, is_failed,
}

module _ {W : Type 0} where
  unfoldable pub add_log : JobRun → JobLogLevel → Option ℕ → JobDb W → JobDb W
  add_log run level chunk_no db = record db {
    logs =
        db.logs
        ++ record {
          tenant_id = run.tenant_id;
          job_run_id = run.id;
          chunk_no = chunk_no;
          level = level;
        }
          ∷ [];
  }

  -- `DEFINITIONS.get(code)`, or NotFoundError.
  unfoldable pub find_definition : List (JobDefinition W) → String → Option (JobDefinition W)
  find_definition defs code = find (λ d. str_eq d.code code) defs

  unfoldable pub get_definition : List (JobDefinition W) → String → Tx (JobDb W) (JobDefinition W)
  get_definition defs code = or_raise not_found (find_definition defs code)

abbrev same_text : Option String → String → Bool
same_text none s = false
same_text (some t) s = str_eq t s

-- An active run of the job.
unfoldable pub is_active_run : ℕ → String → JobRun → Bool
is_active_run tenant_id job_code r =
    r.tenant_id == tenant_id && str_eq r.job_code job_code && is_active r.status

abbrev pub find_by_key : ℕ → Option String → List JobRun → Option JobRun
find_by_key tenant_id none runs = none
find_by_key tenant_id (some key) runs =
    if str_eq key ""
    then none
    else find (λ r. r.tenant_id == tenant_id && same_text r.idempotency_key key) runs

unfoldable pub is_run : ℕ → ℕ → JobRun → Bool
is_run tenant_id run_id r = r.tenant_id == tenant_id && r.id == run_id

unfoldable pub is_chunk_of : ℕ → ℕ → JobRunChunk → Bool
is_chunk_of tenant_id run_id c = c.tenant_id == tenant_id && c.job_run_id == run_id

-- What the caller of `create_run` asks for.
pub record RunInput : Type 0 where
  pub job_code : String
  pub params : String
  pub dry_run : Bool
  pub trigger : JobTrigger
  pub actor_user_id : Option ℕ
  pub schedule_id : Option ℕ
  pub idempotency_key : Option String

abbrev pub new_run : ℕ → ℕ → ℕ → RunInput → String → JobRun
new_run now id tenant_id input params = record {
  id = id;
  tenant_id = tenant_id;
  job_code = input.job_code;
  status = JobRunStatus.queued;
  dry_run = input.dry_run;
  params = params;
  trigger = input.trigger;
  schedule_id = input.schedule_id;
  requested_by_user_id = input.actor_user_id;
  idempotency_key = input.idempotency_key;
  chunks_total = 0;
  chunks_done = 0;
  chunks_failed = 0;
  output = [];
  error = none;
  started_at = none;
  finished_at = none;
  updated_at = now;
}

abbrev cancel_chunk : JobRunChunk → JobRunChunk
cancel_chunk c = record c { status = ChunkStatus.cancelled }

abbrev pub cancelled_run : ℕ → JobRun → JobRun
cancelled_run now r = record r { status = JobRunStatus.cancelled; finished_at = some now }

abbrev pub retried_chunk : JobRunChunk → JobRunChunk
retried_chunk c = record c {
  status = ChunkStatus.pending;
  attempts = 0;
  error = none;
  finished_at = none;
}

unfoldable pub is_failed_chunk : JobRun → JobRunChunk → Bool
is_failed_chunk run c = is_chunk_of run.tenant_id run.id c && is_failed c.status

-- A run that failed while it was planned has no chunks, and starts again from the queue.
abbrev pub retried_run : JobRun → JobRun
retried_run r = record r {
  status = if r.chunks_total == 0 then JobRunStatus.queued else JobRunStatus.running;
  error = none;
  finished_at = none;
  chunks_failed = 0;
}

abbrev pub retry_tasks : JobRun → String → List JobRunChunk → List Task
retry_tasks run queue retried =
    if run.chunks_total == 0
    then Task.start_run run.tenant_id run.id queue ∷ []
    else map (λ (c : JobRunChunk). Task.run_chunk run.tenant_id run.id c.id queue) retried

module _ {W : Type 0} where
  abbrev pub lift : {A : Type 0} → Result A → Tx (JobDb W) A
  lift (ok a) = pure a
  lift (err e) = raise e

  -- `_ensure_not_running`; the unique index uq_job_run_active has the same condition.
  unfoldable pub ensure_not_running : ℕ → String → Tx (JobDb W) (Unit {0})
  ensure_not_running tenant_id job_code = do
    running ← gets (λ db. any (is_active_run tenant_id job_code) db.runs)
    raise_if running (conflict Code.job_already_running)

  unfoldable pub add_run : JobRun → JobDb W → JobDb W
  add_run run db = record db { runs = db.runs ++ run ∷ []; next_id = suc db.next_id }

  abbrev pub create_new :
      ℕ → ℕ → JobDefinition W → RunInput → Option JobRun → Tx (JobDb W) (JobRun × List Task)
  create_new now tenant_id definition input (some existing) = pure (existing, [])
  create_new now tenant_id definition input none = do
    raise_if (input.dry_run && not definition.supports_dry_run)
        (rule_violation Code.dry_run_not_supported)
    parsed ← or_raise (rule_violation Code.invalid_job_params) (definition.validate input.params)
    world ← gets (λ db. db.world)
    prepared ← lift (definition.prepare world tenant_id parsed)
    ensure_not_running tenant_id input.job_code
    id ← gets (λ db. db.next_id)
    let run = new_run now id tenant_id input prepared
    modify (λ db. add_log run JobLogLevel.info none (add_run run db))
    pure (run, Task.start_run tenant_id id definition.queue ∷ [])

  unfoldable pub create_run :
      List (JobDefinition W) → ℕ → ℕ → RunInput → Tx (JobDb W) (JobRun × List Task)
  create_run defs now tenant_id input = do
    definition ← get_definition defs input.job_code
    existing ← gets (λ db. find_by_key tenant_id input.idempotency_key db.runs)
    create_new now tenant_id definition input existing

  -- `_get_run`
  unfoldable pub get_run : ℕ → ℕ → Tx (JobDb W) JobRun
  get_run tenant_id run_id = do
    found ← gets (λ db. find (is_run tenant_id run_id) db.runs)
    or_raise not_found found

  -- A change of the run that was loaded.
  unfoldable pub change_run : JobRun → (JobRun → JobRun) → JobDb W → JobDb W
  change_run run f db = record db { runs = update_first (is_run run.tenant_id run.id) f db.runs }

  unfoldable pub cancel_chunks : JobRun → JobDb W → JobDb W
  cancel_chunks run db = record db {
    chunks =
        update_all (λ c. is_chunk_of run.tenant_id run.id c && is_pending c.status) cancel_chunk
          db.chunks;
  }

  unfoldable pub cancel_run : ℕ → ℕ → ℕ → Tx (JobDb W) (Unit {0})
  cancel_run now tenant_id run_id = do
    run ← get_run tenant_id run_id
    raise_if (not (is_active run.status)) (rule_violation Code.job_not_active)
    modify (λ db.
        add_log run JobLogLevel.warning none
          (change_run run (cancelled_run now) (cancel_chunks run db)))

  unfoldable pub retry_chunks : JobRun → JobDb W → JobDb W
  retry_chunks run db = record db {
    chunks = update_all (is_failed_chunk run) retried_chunk db.chunks;
  }

  unfoldable pub retry_run : List (JobDefinition W) → ℕ → ℕ → Tx (JobDb W) (List Task)
  retry_run defs tenant_id run_id = do
    run ← get_run tenant_id run_id
    raise_if (not (is_retryable run.status)) (rule_violation Code.job_not_retryable)
    ensure_not_running run.tenant_id run.job_code
    definition ← get_definition defs run.job_code
    retried ← gets (λ db. filter (is_failed_chunk run) db.chunks)
    modify
        (λ db. add_log run JobLogLevel.info none (change_run run retried_run (retry_chunks run db)))
    pure (retry_tasks run definition.queue retried)
