-- ===== src/Jobs.antt =====
-- backend/app/services/jobs.py and backend/app/jobs: runs are created, planned, executed chunk by
-- chunk, finalised, cancelled and retried.
pub mod Service
pub mod Plan
pub mod Execute
pub mod Once
pub mod DryRun
pub mod Active
pub mod Single
pub mod Reach
pub mod Totals
pub mod Retry
pub mod Scheduler
pub mod Schedules
