-- ===== src/Kernel/Frame.antt =====
-- Which parts of the kernel leave the journal and the snapshots alone: a calculus for programs of
-- `World.M`, and its use on the fanout and on the handlers' side effects.
pub mod Calculus
pub mod Store
pub mod Waits
pub mod Reactions
pub mod Fanout
