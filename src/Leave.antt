-- ===== src/Leave.antt =====
-- backend/app/services: leave configuration, balances, requests and accrual.
pub mod Config
pub mod Balances
pub mod Requests
pub mod Ledger
pub mod Authority
pub mod Accrual
pub mod Expiry
pub mod JobPlan
