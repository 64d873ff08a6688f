-- ===== src/Lib.antt =====
-- agent-graph-engine: a model of the engine in src/agentgraph/core, of the durable runs in
-- src/agentgraph/runtime, and of the way from a work source to what a write may touch.
--
-- The program drives coding agents along a fixed graph of stages. Its core is pure: an immutable
-- state snapshot, a static graph of nodes and guarded edges, and an engine that applies one node
-- result at a time. A result may carry a patch of the state, which an applier checks against the
-- rules of paths and against the paths that the node owns. The engine then chooses the one edge
-- that the patched state and the result allow, and makes the transition with its effects on the
-- cursor, the repair counter, the risk route, the scope lock and the status of the run.
--
-- Around it, a runtime makes each step durable: a session appends to a checksummed journal what it
-- is about to do and what came of it, and swaps the stored state in between, so that recovery can
-- finish a step that was interrupted. What there is to do comes from a work source: the Spec Kit
-- adapter selects the next item of a scope and packages it, the integration checks the selection,
-- and the write side compares the package with the source and holds every path against it.
--
-- Which file models which part:
--   Core/Enums         core/enums.py       the enumerations, with `==` by place
--   Core/Errors        core/errors.py      Result: an exception is an `err`
--   Core/State         core/state.py       a record for each dataclass, `initial`
--   Core/Metadata      core/state.py       mappings of metadata
--   Core/Policy        core/policy.py      PolicySnapshot, `policy` for its construction
--   Core/NodeResult    core/result.py, core/node.py   `node_result` for NodeResult.__post_init__
--   Core/Edges         core/edges.py, core/guards.py  `matches` and `evaluate`
--   Core/Graph         core/graph.py       `define` for the construction, `node`, `outgoing`
--   Core/Patches/*     core/patches.py     Values: Python values and isinstance; Paths: PATH_RULES;
--                      Access and Groups: _get_path and _replace_path; Ownership: authorize;
--                      Apply: the operations and StatePatchApplier.apply
--   Core/Engine        core/engine.py      a function for each method of GraphEngine
--   Core/V1, Core/V1/Nodes, Core/V1/Edges  core/v1_graph.py    canonical_v1_graph
--   Runtime/Failures   runtime/errors.py   Outcome: a value, or an exception of the runtime
--   Runtime/Journal    runtime/journal.py  records, `validate_record`, `load`
--   Runtime/JournalFile   runtime/journal.py  the same journal on the bytes of its file:
--                      Journal.load, Journal.append and Journal.repair_truncated_tail
--   Runtime/Disk       runtime/state_store.py, runtime/journal.py  actions on the files of a run
--   Runtime/Evidence, Runtime/Recovery   runtime/recovery.py  `assess` and `execute`
--   Runtime/Session    runtime/coordinator.py, RuntimeSession: `step`, `recover`, `finalize`
--   Runtime/Project    runtime/coordinator.py, DurableGraphCoordinator: `start_run`
--   Work/Models, Work/Source   work/models.py, work/errors.py, work/source.py
--   Work/Commands      work/commands.py    parse_validation_checks
--   Work/Shlex         Python's shlex.split, which it calls
--   Speckit/Lookup, Speckit/Ready, Speckit/Package, Speckit/Source   adapters/speckit/adapter.py
--   Integration/Models, Integration/Selection   integration/models.py, integration/selection.py
--   Integration/Preflight   integration/preflight.py
--   Write/Paths, Write/Capability   write/capability.py
--   Nodes/Preflight    nodes/deterministic.py, START, PREFLIGHT and FINALIZE
-- All of these paths are under src/agentgraph. The other files hold specifications and proofs:
-- Core/V1/Routes is the decision table of the canonical graph, Core/V1/Moves compares it with
-- transitions, Core/V1/Gates says what holds at each stage, Core/V1/Reach defines the runs, and
-- Core/V1/Measure ranks the stages, Core/V1/Bounded counts the results of a run,
-- Core/Engine/Selection says when an edge wins, and Core/Engine/Rounds defines a path of steps.
-- Runtime/Crash follows a step through each of its stages, Runtime/Advance and Runtime/Rerun take
-- any disk. Prelude holds the shared helpers, Tests the concrete graphs, states and runs.
--
-- Correspondence: a method that raises is a function into Result, and the order of its checks is
-- kept. Values of the wrong Python type are excluded by the types, except in patches, where the
-- value of an operation is any `Value` and isinstance is a function. Integers are unbounded in
-- Python and here: counters that are checked to be 0 or more are ℕ, patch values are ℤ. Paths are
-- texts; the leaf that a path names is found by its spelling in the list of rules. Dictionaries are
-- association lists. `run_loop` counts down the rounds that max_steps gives, as the loop does, and
-- ends with the error that the loop ends with. Nodes, custom conditions and custom guards are code
-- that the engine is given: functions that are parts of the graph and the engine, about which
-- nothing is assumed.
--
-- The runtime: a disk is the stored state with its digest, the journal, the bytes of an incomplete
-- last line, the receipt and the owner of the project; an action takes the disk and leaves another
-- one, also where it raises. The journal is a list, newest record first. Payloads are typed, where
-- the source encodes them as JSON. SHA-256 is a parameter, of the content of a record and of a
-- state; only the uniqueness of histories assumes anything about it, that the records at hand have
-- no collision. The result in a record is the node's result, already decoded: `assess_recorded`
-- lacks the branch for one that cannot be decoded. The JSON codec is a parameter of the bytes of a
-- journal file, where the theorems assume of the records at hand that it reads back what it writes,
-- in one line. The fault hook is a parameter, and a stage where it raises is where a session is
-- interrupted. The reconciler of side effects is a parameter. The order of files on the disk, the
-- lock with its heartbeat, the ids and the times are left out: a session has the disk to itself.
--
-- Work and writes: an exception is `failed`. A dictionary made of a list keeps the last entry of a
-- key. A relative path is given by its parts. `str.casefold` is a parameter of the commands, and
-- nothing is assumed of it. White space is what Python takes for it.
--
-- Not modelled: RetryPolicy and metrics, which core does not read; the texts of most messages;
-- schema_version, which can only be 1; the staging directories set aside, checkpoint files, locks,
-- the codec; the reading of manifests and tasks; the configuration; the rest of the write slice, of
-- the integration and of the nodes, the providers and the command line, which reach for files, git
-- and processes.
pub mod Prelude
pub mod Core
pub mod Runtime
pub mod Work
pub mod Speckit
pub mod Integration
pub mod Write
pub mod Nodes
pub mod Tests
