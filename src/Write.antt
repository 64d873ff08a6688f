-- ===== src/Write.antt =====
-- What a write may touch (src/agentgraph/write/capability.py).
pub mod Paths
pub mod Capability
pub mod Allowed
pub mod Reconciled
