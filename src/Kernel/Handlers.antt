-- ===== src/Kernel/Handlers.antt =====
-- packages/runtime-kernel/src/command/handler.ts: the handlers of the commands.
pub mod Denials
pub mod Create
pub mod Transitions
pub mod Events
pub mod Waits
pub mod Reactions
