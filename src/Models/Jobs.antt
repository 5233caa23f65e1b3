-- ===== src/Models/Jobs.antt =====
-- backend/app/models/jobs.py: job runs, their chunks and their log, and the job definitions of
-- backend/app/jobs/registry.py. JSON (parameters) is its text. `W` is the business data that a job
-- reads and writes.
use hrus.Base.{ℕ, Bool, true, false, Option, List, String}
use hrus.Errors.{Result}

pub data JobRunStatus : Type 0 where
  queued running success partial failed cancelled : JobRunStatus

pub data JobTrigger : Type 0 where
  user schedule : JobTrigger

pub data ChunkStatus : Type 0 where
  pending success failed cancelled : ChunkStatus

pub data JobLogLevel : Type 0 where
  info warning error : JobLogLevel

-- `Counter[str]`
abbrev pub Counts : Type 0
Counts = List (String × ℕ)

pub record JobRun : Type 0 where
  pub id : ℕ
  pub tenant_id : ℕ
  pub job_code : String
  pub status : JobRunStatus
  pub dry_run : Bool
  pub params : String
  pub trigger : JobTrigger
  pub schedule_id : Option ℕ
  pub requested_by_user_id : Option ℕ
  pub idempotency_key : Option String
  pub chunks_total : ℕ
  pub chunks_done : ℕ
  pub chunks_failed : ℕ
  pub output : Counts
  pub error : Option String
  pub started_at : Option ℕ
  pub finished_at : Option ℕ
  pub updated_at : ℕ

pub record JobRunChunk : Type 0 where
  pub id : ℕ
  pub tenant_id : ℕ
  pub job_run_id : ℕ
  pub chunk_no : ℕ
  pub params : String
  pub status : ChunkStatus
  pub attempts : ℕ
  pub output : Counts
  pub error : Option String
  pub finished_at : Option ℕ

pub record JobRunLog : Type 0 where
  pub tenant_id : ℕ
  pub job_run_id : ℕ
  pub chunk_no : Option ℕ
  pub level : JobLogLevel

-- `ACTIVE_RUN_STATUSES`
abbrev pub is_active : JobRunStatus → Bool
is_active JobRunStatus.queued = true
is_active JobRunStatus.running = true
is_active _ = false

abbrev pub is_queued : JobRunStatus → Bool
is_queued JobRunStatus.queued = true
is_queued _ = false

abbrev pub is_running : JobRunStatus → Bool
is_running JobRunStatus.running = true
is_running _ = false

-- `RETRYABLE_STATUSES` of services/jobs.py
abbrev pub is_retryable : JobRunStatus → Bool
is_retryable JobRunStatus.failed = true
is_retryable JobRunStatus.partial = true
is_retryable _ = false

abbrev pub is_pending : ChunkStatus → Bool
is_pending ChunkStatus.pending = true
is_pending _ = false

abbrev pub is_success : ChunkStatus → Bool
is_success ChunkStatus.success = true
is_success _ = false

abbrev pub is_failed : ChunkStatus → Bool
is_failed ChunkStatus.failed = true
is_failed _ = false

-- What a chunk's logic is given.
pub record ChunkContext : Type 0 where
  pub tenant_id : ℕ
  pub run_id : ℕ
  pub chunk_no : ℕ
  pub params : String
  pub chunk : String
  pub dry_run : Bool
  pub actor_user_id : Option ℕ

-- An exception of `plan` or `run_chunk` is an error text.
pub data Outcome (A : Type 0) : Type 0 where
  done : A → Outcome A
  raised : String → Outcome A

pub record JobDefinition (W : Type 0) : Type 0 where
  pub code : String
  pub validate : String → Option String
  pub prepare : W → ℕ → String → Result String
  pub plan : W → ℕ → String → Outcome (List String)
  pub run_chunk : W → ChunkContext → Outcome (W × Counts)
  pub queue : String
  pub max_attempts : ℕ
  pub supports_dry_run : Bool
  pub default_cron : Option String

pub record JobSchedule : Type 0 where
  pub id : ℕ
  pub tenant_id : ℕ
  pub job_code : String
  pub cron : String
  pub timezone : String
  pub params : String
  pub is_active : Bool
  pub next_run_at : ℕ
  pub last_run_at : Option ℕ

-- The tables of the job framework beside the business data.
pub record JobDb (W : Type 0) : Type 0 where
  pub world : W
  pub runs : List JobRun
  pub chunks : List JobRunChunk
  pub logs : List JobRunLog
  pub next_id : ℕ

pub data Task : Type 0 where
  start_run : ℕ → ℕ → String → Task
  run_chunk : ℕ → ℕ → ℕ → String → Task
