-- ===== src/Lib.antt =====
-- Verification library for the Rust crates of Cortex Engine (rust/crates).
--
-- Texts are native strings, as in Rust: `len` counts bytes, the constructors walk characters.
-- Numbers are natural numbers; where an i64 or u64 can wrap or fail to parse, the definition says so.
-- Times are arguments: one command reads the clock once.
--
-- Common: shared tests, lists, texts, ordered maps, decimal printing and parsing.
-- Relay (rust/crates/ctl/src/relay.rs): the board of lanes. Board has the records, Paths the normal
-- form of claimed paths (on Unix), Zombie the age of a lock, Operations the commands and the
-- transaction around them. A board file is an optional board: what serde reads from the JSON, if
-- anything; writing a board and reading it back is taken to give the same board. Exclusion, Lease,
-- Claims, Invariant and Run have the theorems. Lock has the steps of one process at the lock file and
-- under it, Concurrent the interleavings of many, with the theorems in its children. Two assumptions
-- stand there: creating a file that must not exist is one step, and a write of the board is one step,
-- also when it fails. A Moment says when a command runs and whether its folder, its open or its write
-- fails.
--
-- Storage (rust/crates/storage, parsers/src/common.rs, watcher/src/index.rs): the tables nodes, edges
-- and file_cache as lists of rows in the order of insertion. Records has what a parser returns, Tables
-- the rows, Write the batch for one file, Cleanup the removal of deleted files, Resolver (with
-- Resolver.Matching) the resolution of edges. Write.Laws, Cleanup.Laws, Resolver.Soundness and Resolver.Effect have the theorems.
-- Query (rust/crates/mcp/src/query_code.rs and storage_tools.rs): Nodes has the look-ups and the
-- neighbours of a symbol, where the graph helper's answers are a parameter; Impact and Path are the two
-- breadth-first searches, on fuel. The first has max_nodes + 2 turns, one for every node that it can
-- add and two more; for the second, the fuel is an argument.
-- Memory (rust/crates/mcp/src/memory.rs, hooks.rs): Store has the tables and the history folder, Inbox
-- the hook that copies observations, Operations the tools, Todo the list of todos. Rows, Extraction and
-- Consolidate have theorems.
-- Runtime (rust/crates/runtime/src): Framing (protocol.rs) has the framed messages, Delivery the round
-- trip. The loop that reads has one turn of fuel for every byte that is wanted. Worker (worker.rs,
-- idle.rs) has the worker process with its restarts, Supervision the theorems about it. Requests do not
-- overlap; what other threads do between the questions of the idle monitor is an argument (Gaps).
--
-- Parsers (rust/crates/parsers/src/lib.rs): Chunking cuts a text into chunks, Cover has the theorems. The
-- loop needs one turn for every character at most, when the overlap is shorter than a chunk.
--
-- Context (rust/crates/mcp/src/query_context.rs): Session puts the session's context together from the
-- rows that its queries return, Search the ranked lines of a search, Deep the hits of the deep one;
-- Budget, Search.Order and Search.Ranked have the theorems.
--
-- Scanner (rust/crates/scanner/src): Yaml has the settings' values, Filters (filters.rs, ignores.rs) the
-- tests of a path, Roots (index_roots.rs) the roots and the paths of the index, Settings the merge of
-- the local settings, Finder the walk over the disk, with its theorem in Finder.Listed. The file system,
-- the matcher of globset and the equality of YAML values are parameters; a value's tag is not modelled.
-- Watcher (rust/crates/watcher/src): Naming (common.rs) has what follows from a path alone, Index
-- (index.rs) the commands index and index-file, with Index.Inspect for one file, Watch (watch.rs) the
-- loop of the watcher as a list of turns. The files, the hashes and the parsers are parameters, and they
-- do not change during a run. Their children have the theorems.
--
-- Mcp (rust/crates/mcp/src): Catalog (catalog.rs) has the tools with their schemas, Guards (hooks.rs) the
-- checks before a call, Protocol (protocol.rs) the messages, where a server is what performs a call on its
-- state. JSON (Json) is the documented type of serde_json; its parser and its printers are parameters.
--
-- Edit (rust/crates/mcp/src/edit.rs): the replacement of a text in a file, with the row of its event and
-- the hooks after it. The disk maps real paths to contents, the inbox among them; Files has the data and
-- the environment of a call, Event the row, Replace the call; Edit.Hooks and Edit.Exact have the theorems.
--
-- Not modelled: what is only printed or logged, the contents of the SQLite engine, the Python helpers.
pub mod Common
pub mod Relay
pub mod Storage
pub mod Query
pub mod Memory
pub mod Runtime
pub mod Scanner
pub mod Watcher
pub mod Mcp
pub mod Edit
pub mod Parsers
pub mod Context
