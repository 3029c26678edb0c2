-- ===== src/Lib.antt =====
-- Verification of Gareji Core, the local trust kernel for bounded, auditable agent execution:
-- the capability gate, the progress recorder, the project registry, the run executor, the
-- Core bridge, and the plugin Host with its framing and its protocol.
--
-- A run comes in through the executor (crates/gareji-core/src/runner.rs), which asks the
-- capability gate (crates/gareji-core/src/policy.rs) before it calls the replaceable Runner
-- Adapter. Work is reported as immutable progress checkpoints, which the recorder
-- (crates/gareji-core/src/progress/mod.rs and types.rs) keeps in SQLite together with one
-- delivery for each destination. Projects and their active work items are kept by the
-- registry (crates/gareji-core/src/registry.rs), with the shared contracts of
-- crates/gareji-contracts/src/lib.rs. Local transports reach the registry and the recorder
-- through the Core bridge (crates/gareji-core/src/bridge.rs), which checks the grants of the
-- project and asks Board before it selects active work. A plugin is run by the Host
-- (crates/agentmesh-host), which starts it, exchanges two frames of the plugin protocol
-- (crates/agentmesh-proto) with it, and leaves an audit document and one compact envelope.
--
--   Base: the shared helpers. A Rust `String` is the list of its code points (Base.Texts,
--     with its UTF-8 bytes), a `BTreeSet` the list of its elements in order (Base.Orders,
--     with `insert`, `contains` and `collect`), `Result` with `?` is a data type with a bind
--     (Base.Results), `ORDER BY` and `sort` are an insertion sort (Base.Sorting), and
--     Base.Checks says what chains and loops of checks accept.
--   Policy: crates/gareji-core/src/policy.rs. `authorize` is `CapabilityGate::authorize`,
--     `validate_policy` and `validate_intent` are the two `validate`, `new_policy` is
--     `CapabilityPolicy::new`; the trait `ApprovalSource` is a function that may fail.
--     Proofs: Policy.Validation, Policy.Decision, Policy.Gate.
--   Progress, Progress.Validate: crates/gareji-core/src/progress/types.rs. `validate` is
--     `ProgressCheckpoint::validate`. Proofs: Progress.Validate.Splitting, Paths, Bounds.
--   Progress.Ledger: the two tables of crates/gareji-core/src/progress/mod.rs as lists of
--     rows, newest first, and the SQL statements on them as functions; keys are checks of the
--     inserts. Progress.Ledger.Encoding has `hex_sha256` and `sanitize_message`,
--     Progress.Ledger.Invariant the well-formed ledgers.
--   Progress.Recorder: the methods of `ProgressRecorder`. `record_checkpoint` is `record`,
--     `status` is `status`; Progress.Recorder.Sync has `sync_pending`, with the projector as
--     a step on a state of its own, and Progress.Recorder.Pages has `list`. A method returns
--     its result and the ledger that it leaves; an error inside the transaction rolls back.
--   Contracts, Registry: crates/gareji-contracts/src/lib.rs and
--     crates/gareji-core/src/registry.rs. The tables are association lists; `register`,
--     `list`, `get`, `set_active_work_item` and `active_work_item` are the methods of
--     `ProjectRegistry`. Proofs: Registry.Bounds, Tables, Invariant, Operations, Listing.
--   BridgeContract: the wire requests, results and responses of
--     crates/gareji-contracts/src/lib.rs, and the Board port of
--     crates/gareji-core/src/board.rs.
--   Bridge: crates/gareji-core/src/bridge.rs. `handle` and `execute` are the methods of
--     `CoreBridge`; each operation is a function of its own, and what comes before a call of
--     the registry or the recorder is apart from the call. The Board port is a function that
--     may fail. Proofs: Bridge.Grants, Bridge.Changes, Bridge.Responses.
--   Framing: crates/agentmesh-host/src/framing.rs, the decoder of Content-Length frames that
--     the plugin Host reads; Framing.Encoding is the encoder. `push`, `finish` and
--     `new_decoder` are the methods of `FrameDecoder`; `decode_from` is `try_decode`, with
--     its two branches in `decode_headers` and `decode_body`. Proofs: Framing.Chunks, Limits,
--     Numbers, Lines, RoundTrip.
--   Protocol: the failures, limits, errors and messages of crates/agentmesh-proto/src
--     (failure.rs, limits.rs, error.rs, rpc.rs); Protocol.Compact is compact.rs.
--     Protocol.Strict is the parser of json_strict.rs: the cursor of `StrictParser` is the
--     text that is left, and each method returns a value with the rest. Proofs:
--     Protocol.Strict.Tokens, Fuel, Bounds, Keys.
--   Host: the types of crates/agentmesh-host/src (lifecycle.rs, sidecar.rs, audit.rs) and
--     what a run asks of the operating system. Host.Failures is failure_coord.rs,
--     Host.Redaction is redaction.rs (proofs: Host.Redaction.Pointers), Host.Process is
--     process.rs on Unix. Host.Streams has the reading of a frame, the draining of stderr and
--     the end of the plugin out of run.rs (proofs: Host.Streams.Reading, Draining, Trailing).
--   Host.Runs: `execute_run_with` of crates/agentmesh-host/src/run.rs. Its local variables
--     are a record (Host.Runs.Steps) that is passed along; its phases, in the order of the
--     code, are steps on that record that go on or leave for `finish` (Host.Runs.Exchange),
--     and Host.Runs.Finish has `finish` and the whole run. What the code writes out once for
--     initialize and once for the run, the sending, awaiting and recording of a frame, is one
--     step, `exchange`. Proofs: Host.Runs.Sound, Outcomes, Closing, Answers, Reporting,
--     Success.
--   RunContract, Runner: crates/gareji-core/src/runner.rs; the former has its limits and its
--     data types. `execute` is `RunExecutor::execute`, with the adapter as a step on a state
--     of its own. Proofs: Runner.Payloads, Runner.Reports, Runner.Runs.
--
-- Code of other packages is a parameter. The recorder and the registry take an `Externals`:
-- which storage calls fail (`fault`, one site for each call of rusqlite), and serde_json's
-- two directions, of which `ReadsBack` states that what was written is read back. SHA-256 is
-- a function on bytes, of which only `GivesBytes` is assumed, and chrono's date parser is a
-- test. serde_json's encoder of payloads is `to_vec`, and the bridge takes its conversions
-- between values and the checkpoint and result types. A run of the Host takes two records:
-- `Os`, the calls of tokio, the clock, the cancellation token, the audit store and the sink
-- as steps on a state of their own, and `Libraries`, the pure calls of serde_json, SHA-256
-- and the environment, with the printed forms of errors. The strict parser takes serde_json's
-- reading of one string and one number (`Scalars`). Of all these only one thing is assumed,
-- and by one theorem: that serde_json writes at least one byte for the audit document.
--
-- Numbers are natural numbers. The counters of `SyncSummary` saturate at 2^32 - 1 as the
-- code's `u32` do, and a stored number of attempts outside `u32` is the code's error. The
-- loop of `validate_json` runs on fuel: each round counts one node and refuses the one behind
-- the limit of 100000, so the limit and one round more is enough. The recursion of the strict
-- parser runs on fuel, twice the length of the text and one more: each call for a value and
-- each round of a loop takes one unit, and each value takes a character. The loop of
-- `read_one_frame` runs on as many rounds as the limits of the header block and of the frame
-- allow bytes, and three more: a round that goes on has put at least one byte into the
-- decoder. A printed number has itself as fuel for its digits. All other loops are
-- structural; the loop of `close_and_reap` always leaves in its first round. Instants and
-- time limits of the Host are in nanoseconds.
--
-- Not modelled: opening a database, its schema and its migration, the derived encodings of
-- serde, and the debug assertion of the bridge. Errors of the frame decoder and of the strict
-- parser are kept without their texts. The files that `FsAuditStore` and the sinks write are
-- behind the calls `persist` and `write_sink` of `Os`; the task that drains stderr is joined
-- with the list of what it has read. The Windows branch of `build_plugin_command`, schema.rs,
-- the application of the agentmesh crates (crates/agentmesh-app), the Codex adapter, the
-- command lines and the setup are outside this library.
pub mod Base
pub mod Contracts
pub mod Policy
pub mod Progress
pub mod Registry
pub mod RunContract
pub mod Runner
pub mod BridgeContract
pub mod Bridge
pub mod Framing
pub mod Protocol
pub mod Host
