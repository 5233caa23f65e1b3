-- ===== src/Leave/Requests.antt =====
-- backend/app/services/leave_requests.py: validation, submission, decisions and cancellation.
pub mod Lookup
pub mod Evaluate
pub mod Submit
pub mod Decide
pub mod Reads
