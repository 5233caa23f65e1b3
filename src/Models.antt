-- ===== src/Models.antt =====
-- backend/app/models: the tables as records, by file.
pub mod Auth
pub mod Leave
pub mod CoreHr
pub mod Jobs
pub mod Users
