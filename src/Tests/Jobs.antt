-- ===== src/Tests/Jobs.antt =====
-- backend/app/jobs with one job that adds to a number, in two chunks.
use hrus.Base.{
  ℕ, ◌+◌, ◌≡◌, ◌≤◌, refl, Bool, true, false, none, some, List, [], ◌∷◌, arith, find, count,
  update_first, any,
}
use hrus.Errors.{ok}
use hrus.Models.Jobs.{
  JobRun, JobTrigger, JobDefinition, JobDb, Outcome, Task, JobLogLevel, is_pending,
}
use hrus.Jobs.Service.{
  RunInput, create_run, find_definition, get_definition, ensure_not_running, is_run, is_chunk_of,
  add_log, add_run, change_run, new_run,
}
use hrus.Jobs.Plan.{start_run, make_chunks, started_run}
use hrus.Jobs.Execute.{
  Execution, executed, execute_chunk, run_chunk, is_chunk, change_chunk, finalize, count_status,
  progressed, ChunkOutcome,
}
use hrus.Jobs.Once.{run_chunk-again, run_chunk-interrupted}
use hrus.Jobs.DryRun.{run_chunk-dry}
use hrus.Jobs.Active.{IsSingle}
use hrus.Jobs.Reach.{Step, Reach, Reach-IsSingle}
use hrus.Base.{arith}
use hrus.Jobs.Totals.{IsFinished, finalize-IsFinished}

abbrev counting : JobDefinition ℕ
counting = record {
  code = "counting";
  validate = λ params. some params;
  prepare = λ world tenant_id params. ok params;
  plan = λ world tenant_id params. Outcome.done ("a" ∷ "b" ∷ []);
  run_chunk = λ world context. Outcome.done (world + 1, ("rows", 1) ∷ []);
  queue = "default";
  max_attempts = 3;
  supports_dry_run = true;
  default_cron = some "0 1 * * *";
}

abbrev pub defs : List (JobDefinition ℕ)
defs = counting ∷ []

abbrev pub empty : JobDb ℕ
empty = record { world = 0; runs = []; chunks = []; logs = []; next_id = 1 }

abbrev input : Bool → RunInput
input dry_run = record {
  job_code = "counting";
  params = "";
  dry_run = dry_run;
  trigger = JobTrigger.user;
  actor_user_id = some 9;
  schedule_id = none;
  idempotency_key = none;
}

-- A run in the queue, planned, and with its first chunk's work committed.
abbrev run : Bool → JobRun
run dry_run = new_run 5 1 1 (input dry_run) ""

abbrev queued : Bool → JobDb ℕ
queued dry_run = add_log (run dry_run) JobLogLevel.info none (add_run (run dry_run) empty)

abbrev planned : Bool → JobDb ℕ
planned dry_run = (start_run defs 6 1 1 (queued dry_run)).0

abbrev state_after : Execution ℕ → JobDb ℕ
state_after (executed db) = db
state_after _ = empty

abbrev worked : JobDb ℕ
worked = state_after (execute_chunk defs 7 1 1 2 (planned false))

abbrev over : JobDb ℕ
over = (run_chunk defs 8 1 1 3 (run_chunk defs 7 1 1 2 (planned false)).0).0

created :
    create_run defs 5 1 (input false) empty
    ≡ ok ((run false, Task.start_run 1 1 "default" ∷ []), queued false)
unfolding create_run get_definition find_definition find ensure_not_running any
created = refl

one_chunk : count (is_chunk 1 1 2) (planned false).chunks ≤ 1
unfolding count is_chunk is_chunk_of start_run find is_run add_log add_run find_definition
    make_chunks change_run
one_chunk = omega arith

committed : execute_chunk defs 7 1 1 2 (planned false) ≡ executed worked
unfolding execute_chunk count is_chunk is_chunk_of start_run find is_run add_log add_run
    find_definition make_chunks change_run update_first change_chunk
committed = refl

-- The chunk that is executed is the first, and its work is done.
counted : worked.world ≡ 1
unfolding execute_chunk count is_chunk is_chunk_of start_run find is_run add_log add_run
    find_definition make_chunks change_run update_first change_chunk
counted = refl

run_chunk-again_example :
    run_chunk defs 9 1 1 2 (run_chunk defs 7 1 1 2 (planned false)).0
    ≡ ((run_chunk defs 7 1 1 2 (planned false)).0, ChunkOutcome.outcome none)
run_chunk-again_example = run_chunk-again defs 7 9 1 1 2 (planned false) worked one_chunk committed

run_chunk-interrupted_example : run_chunk defs 9 1 1 2 worked ≡ (worked, ChunkOutcome.outcome none)
run_chunk-interrupted_example =
    run_chunk-interrupted defs 7 9 1 1 2 (planned false) worked one_chunk committed

dry_found : find (is_run 1 1) (planned true).runs ≡ some (started_run 6 2 (run true))
unfolding start_run find is_run add_log add_run find_definition make_chunks change_run update_first
    change_chunk
dry_found = refl

run_chunk-dry_example : (run_chunk defs 7 1 1 2 (planned true)).0.world ≡ (planned true).world
run_chunk-dry_example =
    run_chunk-dry defs 7 1 1 2 (planned true) (started_run 6 2 (run true)) dry_found refl

pub empty-IsSingle : IsSingle empty
unfolding count
empty-IsSingle t code = omega arith

-- A run is created, planned, and one of its chunks is run, while another part of the program writes.
path : Reach defs empty (record (run_chunk defs 7 1 1 2 (planned false)).0 { world = 40 })
path =
    Reach.next
      (Reach.next
        (Reach.next (Reach.next Reach.here (Step.create 5 1 (input false) _ created))
          (Step.start 6 1 1 (queued false)))
        (Step.chunk 7 1 1 2 (planned false)))
      (Step.write 40 (run_chunk defs 7 1 1 2 (planned false)).0)

Reach-IsSingle_example : IsSingle (record (run_chunk defs 7 1 1 2 (planned false)).0 { world = 40 })
Reach-IsSingle_example = Reach-IsSingle defs empty-IsSingle path

abbrev ended : JobDb ℕ
ended = state_after (execute_chunk defs 8 1 1 3 (run_chunk defs 7 1 1 2 (planned false)).0)

abbrev last_run : JobRun
last_run = progressed 7 1 0 (started_run 6 2 (run false))

ended_found : find (is_run 1 1) ended.runs ≡ some last_run
unfolding run_chunk execute_chunk count is_chunk is_chunk_of start_run find is_run add_log add_run
    find_definition make_chunks change_run update_first finalize count_status change_chunk
ended_found = refl

none_pending : count_status is_pending 1 1 ended.chunks ≡ 0
unfolding run_chunk execute_chunk count is_chunk is_chunk_of start_run find is_run add_log add_run
    find_definition make_chunks change_run update_first finalize count_status change_chunk
none_pending = refl

finalize-IsFinished_example :
    (run' : JobRun) × (find (is_run 1 1) (finalize 9 1 1 ended).runs ≡ some run')
    × IsFinished 1 1 ended run'
finalize-IsFinished_example = finalize-IsFinished 9 1 1 ended last_run ended_found refl none_pending
