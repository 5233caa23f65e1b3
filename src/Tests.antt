-- ===== src/Tests.antt =====
-- The properties at concrete inputs, and the data that these use.
pub mod Rules
pub mod Leave
pub mod Jobs
pub mod CoreHr
pub mod Pagination
pub mod AiUsage
pub mod Auth
pub mod Scheduler
pub mod Accrual
pub mod OrgUnits
pub mod Like
pub mod Reports
pub mod Config
pub mod AiSettings
