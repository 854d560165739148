-- ===== src/Washer.antt =====
-- backend/library/washer_resolution*.py: the review of washer records, over a source ledger that
-- nobody writes and three ledgers that only grow: decisions, evidence and closures.
pub mod Records
pub mod Digests
pub mod Decisions
pub mod Evidence
pub mod Closures
pub mod Service
pub mod Audit
pub mod Traces
pub mod Sync
pub mod Reconciliation
