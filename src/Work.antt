-- ===== src/Work.antt =====
-- Work sources (src/agentgraph/work): the models that adapters fill, and the commands of checks.
pub mod Models
pub mod Source
pub mod Shlex
pub mod Commands
pub mod ReadOnly
