-- ===== src/Lib.antt =====
-- Divan: a daemon that orchestrates coding agents. Agents share a SQLite database of tasks,
-- messages, subscriptions, file touches and trace events; the daemon gives them tools, checks what
-- they may do, carries their messages and repairs the database when it starts.
--
-- Core models crates/divan-core: the identifiers (ids.rs), tasks and their state diagram (task.rs),
-- agent cards (agent.rs), messages (message.rs), subscriptions (subscription.rs), trace events
-- (trace.rs) and errors (error.rs), with the source's constructors and fields. `as_str` is the word
-- that is stored, `of_str` what serde reads back.
--
-- Db models crates/divan-db. Db/Store is the database: one list for each table, in insertion order.
-- An operation takes the database and returns its result and the database it leaves; it runs under
-- the connection's mutex, so it is one step. The constraints of migrations/0001_initial.sql (keys,
-- foreign keys, the CHECK on the summary) are written out where a row is inserted, and a
-- transaction that fails leaves the database as it was. Db/Tasks is tasks.rs, Db/Messages
-- messages.rs, Db/Agents agents.rs, Db/Subscriptions subscriptions.rs, Db/Conflicts conflicts.rs
-- and Db/Traces trace_store.rs; an operation has the name of its method.
--
-- Daemon models crates/divan-daemon: Daemon/Policy and Daemon/Paths are policy.rs, Daemon/Bus is
-- bus.rs, Daemon/Mcp the task tools of rpc.rs, with the writes of two claims taken in turns in
-- Daemon/Mcp/Race, Daemon/Handlers its other tools and hooks, Daemon/Lifecycle the reconciliation
-- of lifecycle.rs, Daemon/Router is router.rs on parsed rules and Daemon/Config the runtime limits
-- of config.rs. The bus and the tools call the operations of Db; the tools call the checks of
-- Daemon/Policy first.
--
-- Daemon/Scheduler models scheduler.rs. Its state is a record with the fields of the source, and an
-- operation takes it and returns its result and the state it leaves. What lies outside is the record
-- `Env`: the operating system with git, the files and the clock (Prelude/Files), BLAKE3 and the JSON
-- texts; an agent is the record of functions of Adapters (crates/divan-adapters/src/lib.rs). All of
-- them act on a state of the world that the scheduler carries, so they may answer differently at
-- each call. Daemon/Scheduler/Session is a session with its watchdog and its retries, Reviewer the
-- choice of the reviewer, Flow the write-review flow, Runs the commands on a run, Slug the slugs.
-- An observed session is the list of its events, each with the time at which it comes. The other
-- children of Daemon/Scheduler hold proofs: Within says which operations of the database a command
-- makes, Plain and Triples what holds after a success and after an error, Work, Report, Stages and
-- Outcome put the flow together, Audited treats all commands, Retries the retries.
-- Daemon/Worktrees is worktree.rs, and Db/Artifacts is artifacts.rs with the path layout of
-- crates/divan-core/src/artifact.rs. Hooks/Settings is crates/divan-hooks/src/settings.rs over the
-- JSON values of Prelude/Json, the public enum of serde_json. Metrics is the metrics of
-- crates/divan-trace/src/lib.rs, with the operations of `f64` as a parameter.
--
-- Prelude holds the shared helpers: results with state, lists over the native numbers, the order of
-- texts, sorting and decimal digits. Examples runs the library on a small database.
--
-- Bounds and fuel. The counter of message ids is taken modulo 2 ^ 64. Printing a number recurses on
-- fuel, one more than the number, and a number has no more digits than that. All other recursion is
-- structural. A score of the router is an `i32` in the source and two counters here, what was added
-- and what was taken away.
--
-- What is not modelled. Reading the clock is an argument of each operation. Times are natural
-- numbers, since they count from the epoch. A poisoned mutex and input or output errors of SQLite
-- are left out: an operation fails only by a constraint or by the code's own checks. A JSON value
-- is the text or the value that it stands for, and the text of an error of serde is left out; the
-- text of the payload of an alert is a parameter. The bytes of an artifact are the text that they
-- encode. The commands of the scheduler run one after the other here, each in one piece. The
-- adapters of the tools (but for the tool list of Copilot), the installer of the hooks, the text of
-- a trace, the command line and the terminal interface are not modelled.
pub mod Prelude
pub mod Core
pub mod Adapters
pub mod Db
pub mod Daemon
pub mod Hooks
pub mod Metrics
pub mod Examples
