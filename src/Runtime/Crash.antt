-- ===== src/Runtime/Crash.antt =====
-- runtime/coordinator.py and runtime/recovery.py: a step that is interrupted, and its recovery.
pub mod Same
pub mod Redo
pub mod Closing
pub mod Stages
pub mod Recovered
pub mod Interrupted
