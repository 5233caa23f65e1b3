-- ===== src/CoreHr.antt =====
-- backend/app/services: employees, their job history and organisation units.
pub mod JobHistory
pub mod OrgUnits
pub mod AddJob
pub mod Newest
pub mod InEffect
pub mod Candidates
pub mod Employees
pub mod Unique
