-- ===== src/Store.antt =====
-- The in-memory persistence of packages/runtime-persistence/src/memory/store.ts.
pub mod State
pub mod Transaction
pub mod Commit
pub mod Port
pub mod Outbox
pub mod Locks
pub mod Rollback
pub mod Monotone
pub mod Dedup
pub mod Queue
