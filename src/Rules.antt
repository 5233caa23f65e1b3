-- ===== src/Rules.antt =====
-- backend/app/rules: the pure hard rules.
pub mod Leave
pub mod CoreHr
