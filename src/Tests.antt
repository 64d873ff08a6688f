-- ===== src/Tests.antt =====
-- Tests of the definitions and concrete instances of the properties.
mod Graph
mod Samples
mod Runs
mod Witnesses
mod Runtime
mod Sources
mod Patches
mod Loop
mod JournalFile
