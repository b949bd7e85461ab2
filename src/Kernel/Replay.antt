-- ===== src/Kernel/Replay.antt =====
-- The snapshots are the fold of the journal: what each commit appends, the invariant, and its
-- preservation by every command.
pub mod Logged
pub mod Invariant
pub mod Commits
pub mod Aggregates
pub mod Keeps
pub mod Handlers
pub mod Waits
pub mod Reactions
pub mod Execute
pub mod History
pub mod Marked
pub mod Verify
pub mod Repeated
pub mod Conflict
pub mod Remembered
