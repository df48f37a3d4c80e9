-- ===== src/Runs.antt =====
-- internal/runs: the run ledger, where the idempotency key of every money request is kept.
pub mod Step
pub mod Token
pub mod Ledger
pub mod Create
pub mod Sweep
mod Tests
