-- ===== src/Integration.antt =====
-- From a work source to one selected item (src/agentgraph/integration).
pub mod Models
pub mod Selection
pub mod Eligible
pub mod Explained
pub mod Dependable
pub mod Preflight
pub mod Aligned
