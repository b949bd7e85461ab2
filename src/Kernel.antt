-- ===== src/Kernel.antt =====
-- The runtime kernel: packages/runtime-kernel/src, and the fold of
-- packages/runtime-contracts/src/journal.
pub mod Fold
pub mod Entries
pub mod Executor
pub mod Checkpoints
pub mod WaitMatch
pub mod Registry
pub mod ReactionMatch
pub mod World
pub mod Projections
pub mod Fanout
pub mod Commit
pub mod Handlers
pub mod Execute
pub mod Requests
pub mod Verify
pub mod Frame
pub mod Replay
pub mod Legal
pub mod Compound
pub mod Once
