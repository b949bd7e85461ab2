-- ===== src/Contracts.antt =====
-- The wire types of the kernel: packages/runtime-contracts/src.
pub mod Results
pub mod Journal
pub mod Rules
pub mod Aggregates
pub mod Waits
pub mod Reactions
pub mod Commands
