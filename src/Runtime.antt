-- ===== src/Runtime.antt =====
-- The durable runtime (src/agentgraph/runtime): a run's journal and state on disk, the fixed order
-- of a step, and recovery.
pub mod Failures
pub mod Journal
pub mod Disk
pub mod Evidence
pub mod Recovery
pub mod Session
pub mod History
pub mod Healthy
pub mod JournalFile
pub mod FileLines
pub mod Repaired
pub mod Kept
pub mod Crash
pub mod Rerun
pub mod Advance
pub mod Project
pub mod Launch
pub mod Exclusive
