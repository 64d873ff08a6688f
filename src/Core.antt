-- ===== src/Core.antt =====
-- The deterministic graph core (src/agentgraph/core).
pub mod Enums
pub mod Errors
pub mod Metadata
pub mod State
pub mod Policy
pub mod Patches
pub mod NodeResult
pub mod Edges
pub mod Graph
pub mod V1
pub mod Engine
