-- ===== src/Jobs/Scheduler.antt =====
-- backend/app/jobs/scheduler.py and the schedules of backend/app/services/jobs.py. A tick is one
-- transaction; the arithmetic of cron (`next_fire`) and the list of work that the database's function
-- `job_scheduler_work` gives are parameters.
pub mod Ticks
pub mod Fires
use hrus.Base.{
  ℕ, suc, Bool, true, false, not, ◌&&◌, Option, none, some, List, [], ◌∷◌, ◌++◌, map, String,
  str_eq, ◌==◌, leb, if◌then◌else◌, is_some, find, any, filter, update_first,
}
use hrus.Errors.{AppError, Code, Result, ok, err, not_found, unexpected, rule_violation}
use hrus.Tx.{Tx, pure, raise, gets, modify, or_raise, raise_if, ◌>>=◌, ◌>>◌}
use hrus.Models.Jobs.{
  JobRun, JobRunStatus, JobRunChunk, JobTrigger, JobSchedule, JobDefinition, JobDb, Task, is_queued,
  is_running, is_pending,
}
use hrus.Jobs.Service.{
  RunInput, create_run, find_definition, get_definition, is_run, is_chunk_of, change_run,
}

pub record SchedulerDb (W : Type 0) : Type 0 where
  pub jobs : JobDb W
  pub schedules : List JobSchedule

pub data WorkKind : Type 0 where
  schedule queued stalled : WorkKind

pub record WorkItem : Type 0 where
  pub kind : WorkKind
  pub tenant_id : ℕ
  pub item_id : ℕ

pub record TickResult : Type 0 where
  pub leader : Bool
  pub created : List ℕ
  pub skipped : List ℕ
  pub requeued : List ℕ
  pub resumed : List ℕ
  pub tasks : List Task

abbrev pub empty_result : Bool → TickResult
empty_result leader = record {
  leader = leader;
  created = [];
  skipped = [];
  requeued = [];
  resumed = [];
  tasks = [];
}

unfoldable pub is_schedule : ℕ → ℕ → JobSchedule → Bool
is_schedule tenant_id schedule_id s = s.tenant_id == tenant_id && s.id == schedule_id

unfoldable pub is_due : ℕ → ℕ → ℕ → JobSchedule → Bool
is_due tenant_id schedule_id now s =
    is_schedule tenant_id schedule_id s && s.is_active && leb s.next_run_at now

abbrev pub schedule_input : JobSchedule → RunInput
schedule_input s = record {
  job_code = s.job_code;
  params = s.params;
  dry_run = false;
  trigger = JobTrigger.schedule;
  actor_user_id = none;
  schedule_id = some s.id;
  idempotency_key = none;
}

module _ {W : Type 0} (next_fire : String → String → ℕ → ℕ) (defs : List (JobDefinition W))
    (now : ℕ) where
  abbrev pub fired : JobSchedule → JobSchedule
  fired s = record s { next_run_at = next_fire s.cron s.timezone now; last_run_at = some now }

  unfoldable pub mark_fired : JobSchedule → SchedulerDb W → SchedulerDb W
  mark_fired s db = record db {
    schedules = update_first (is_due s.tenant_id s.id now) fired db.schedules;
  }

  -- A business error of `create_run` rolls its savepoint back; another exception ends the tick.
  abbrev pub fire_outcome :
      JobSchedule
      → TickResult
      → SchedulerDb W
      → Result ((JobRun × List Task) × JobDb W)
      → Result (TickResult × SchedulerDb W)
  fire_outcome s result db (ok ((run, tasks), jobs)) = ok (
    record result { created = result.created ++ run.id ∷ []; tasks = result.tasks ++ tasks },
    record db { jobs = jobs },
  )
  fire_outcome s result db (err unexpected) = err unexpected
  fire_outcome s result db (err e) =
      ok (record result { skipped = result.skipped ++ s.id ∷ [] }, db)

  abbrev pub fire_known : JobSchedule → TickResult → Tx (SchedulerDb W) TickResult
  fire_known s result db =
      if is_some (find_definition defs s.job_code)
      then fire_outcome s result db (create_run defs now s.tenant_id (schedule_input s) db.jobs)
      else ok (result, db)

  abbrev pub fire_found : Option JobSchedule → TickResult → Tx (SchedulerDb W) TickResult
  fire_found none result db = ok (result, db)
  fire_found (some s) result db = fire_known s result (mark_fired s db)

  -- `_fire_schedule`
  unfoldable pub fire_schedule : ℕ → ℕ → TickResult → Tx (SchedulerDb W) TickResult
  fire_schedule tenant_id schedule_id result db =
      fire_found (find (is_due tenant_id schedule_id now) db.schedules) result db

  -- `_lock_run`; no other transaction holds the row, since one replica ticks at a time.
  abbrev pub lock_run : ℕ → ℕ → (JobRunStatus → Bool) → SchedulerDb W → Option JobRun
  lock_run tenant_id run_id p db = find (λ r. is_run tenant_id run_id r && p r.status) db.jobs.runs

  abbrev pub touched : JobRun → JobRun
  touched r = record r { updated_at = now }

  -- A change of the run that was locked.
  unfoldable pub touch : (JobRunStatus → Bool) → JobRun → SchedulerDb W → SchedulerDb W
  touch p run db = record db {
    jobs = record db.jobs {
      runs = update_first (λ r. is_run run.tenant_id run.id r && p r.status) touched db.jobs.runs;
    };
  }

  abbrev pub requeue_known :
      JobRun → TickResult → Option (JobDefinition W) → Tx (SchedulerDb W) TickResult
  requeue_known run result none db = err not_found
  requeue_known run result (some d) db = ok (
    record result {
      requeued = result.requeued ++ run.id ∷ [];
      tasks = result.tasks ++ Task.start_run run.tenant_id run.id d.queue ∷ [];
    },
    touch is_queued run db,
  )

  abbrev pub requeue_found : Option JobRun → TickResult → Tx (SchedulerDb W) TickResult
  requeue_found none result db = ok (result, db)
  requeue_found (some run) result db =
      requeue_known run result (find_definition defs run.job_code) db

  -- `_requeue`
  unfoldable pub requeue : ℕ → ℕ → TickResult → Tx (SchedulerDb W) TickResult
  requeue tenant_id run_id result db =
      requeue_found (lock_run tenant_id run_id is_queued db) result db

  abbrev pending_tasks : JobRun → String → List JobRunChunk → List Task
  pending_tasks run queue chunks =
      map (λ (c : JobRunChunk). Task.run_chunk run.tenant_id run.id c.id queue)
        (filter (λ c. is_chunk_of run.tenant_id run.id c && is_pending c.status) chunks)

  abbrev pub resume_known :
      JobRun → TickResult → Option (JobDefinition W) → Tx (SchedulerDb W) TickResult
  resume_known run result none db = err not_found
  resume_known run result (some d) db = ok (
    record result {
      resumed = result.resumed ++ run.id ∷ [];
      tasks = result.tasks ++ pending_tasks run d.queue db.jobs.chunks;
    },
    touch is_running run db,
  )

  abbrev pub resume_found : Option JobRun → TickResult → Tx (SchedulerDb W) TickResult
  resume_found none result db = ok (result, db)
  resume_found (some run) result db = resume_known run result (find_definition defs run.job_code) db

  -- `_resume`
  unfoldable pub resume : ℕ → ℕ → TickResult → Tx (SchedulerDb W) TickResult
  resume tenant_id run_id result db =
      resume_found (lock_run tenant_id run_id is_running db) result db

  abbrev pub work_on : WorkItem → TickResult → Tx (SchedulerDb W) TickResult
  work_on item result = elim item.kind [
    | WorkKind.schedule ↦ fire_schedule item.tenant_id item.item_id result
    | WorkKind.queued ↦ requeue item.tenant_id item.item_id result
    | WorkKind.stalled ↦ resume item.tenant_id item.item_id result
  ]

  unfoldable pub work_all : List WorkItem → TickResult → Tx (SchedulerDb W) TickResult
  work_all [] result = pure result
  work_all (item ∷ items) result = work_on item result >>= work_all items

  -- The transaction of `tick`; `leader` says whether this replica got the lock.
  unfoldable pub tick : Bool → List WorkItem → Tx (SchedulerDb W) TickResult
  tick false work = pure (empty_result false)
  tick true work = work_all work (empty_result true)
