-- ===== src/Nodes.antt =====
-- The nodes of the read-only graph (src/agentgraph/nodes/deterministic.py).
pub mod Preflight
pub mod Accepted
