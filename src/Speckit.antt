-- ===== src/Speckit.antt =====
-- The Spec Kit adapter (src/agentgraph/adapters/speckit): selection and packages over a snapshot.
pub mod Lookup
pub mod Ready
pub mod Progress
pub mod Liveness
pub mod Package
pub mod Source
