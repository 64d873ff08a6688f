-- ===== src/Core/Patches.antt =====
-- core/patches.py: typed patches, the rules of each path, and who may write it.
-- The children hold the values (`Values`), the paths with their rules (`Paths`), the reads and
-- writes of one path (`Access`), the authorization (`Ownership`) and the applier (`Apply`), then
-- the proofs: `Frame` for one write, `Laws` for a whole patch.
pub mod Values
pub mod Paths
pub mod Groups
pub mod Access
pub mod Ownership
pub mod Apply
pub mod Frame
pub mod Reads
pub mod Laws
pub mod Failures
pub mod Idempotence
