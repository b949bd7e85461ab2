-- ===== src/Hub.antt =====
-- The core of the hub: packages/hub-core/src.
pub mod Sets
pub mod Ids
pub mod Grants
pub mod Policy
pub mod Guard
pub mod Runs
pub mod Queue
pub mod Cycles
