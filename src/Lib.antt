-- ===== src/Lib.antt =====
-- ripmcp runs the tools of Model Context Protocol servers that are named in a configuration of the
-- user or of a project. A project's servers are used only when its configuration was approved; a
-- supervisor process keeps local servers alive; the client speaks to servers over pipes or HTTP.
--
-- The files, and the code that they are about:
-- - Base and its children: what the others share. Text is a list of Unicode scalar values, FilePath a
--   list of components, BTreeMap a list of entries in key order, Error is src/error.rs. Storage.Exec
--   is for fallible actions on a state, which keep what was written before an error.
-- - Json: `serde_json::Value`; Json.Parse: src/json.rs, with serde_json's scanner as a parameter.
-- - Shape: src/shape.rs, `inspect` with its budget of nodes passed along; `none` is a panic.
-- - Config: src/config. Types, Names, Url, Authentication and Schema are schema.rs and
--   authentication.rs (the data, each test, and the order of the tests); Project is mod.rs (the search
--   up the directories), Effective is effective.rs, Mutation is mutation.rs. What serde, the url
--   crate, the file system and SHA-256 do are parameters.
-- - Storage.Transaction: `Store::update_with_deadline` of src/storage/transaction.rs. The disk is the
--   store's file and the pending file; each call of the system is an outcome that may be an error.
--   Storage.Locked: `LockedStore` of the same file, whose commit others may interfere with, up to the rename. The rename
--   and the sync of the directory after it (src/storage/directory.rs) fail one by one.
--   Storage.Paths: src/storage/paths.rs.
-- - Trust: src/trust/mod.rs, approvals by root and digest.
-- - Mcp: src/mcp. Protocol is protocol.rs, Sse is sse.rs, Tools and Calls are tools.rs, Headers is
--   headers.rs, and Prompts is interaction.rs. In Calls the events of a call are a list, the last first.
-- - Supervisor.Wire: the frames of src/supervisor/wire.rs. Supervisor.Barrier: barrier.rs there, as a
--   relation between the states before and after a step of any task. Supervisor.Manager: manager.rs and
--   manager/status.rs, without the clients themselves.
-- - Ownership: src/ownership, the journal of what was installed. Model is its data, Validation its
--   checks and the proof of an object's identity, Store the file. Config.Same: derived equality.
-- - Cleanup: src/cleanup. Plan is plan.rs (Resolve and Build its last functions), Remove is remove.rs,
--   on the two names of the parent directory that matter, with others acting before the rename;
--   Journal is the changes of journal.rs, whose sequences Journal.Steps gives.
-- - Auth: src/auth. Model is the data; Scopes and Challenge are challenge.rs, Metadata is metadata.rs
--   on the documents that were read, Token is token.rs; Vault is
--   credentials.rs, with calls that may take effect though they fail; Provider and Request are
--   provider.rs; Query and Callback are callback.rs; Destination is destination.rs.
-- - Commands: `discover` and `resolve` of src/tools/mod.rs, on the answers of the servers;
--   Commands.Input: src/call.rs; Commands.Policy: src/tools/policy.rs.
-- - Tests: the theorems at concrete inputs, and runs of the definitions.
--
-- They meet as in the program: Config.Effective takes the project of Config.Project and the approval
-- of Trust; Config.Mutation and Trust change their file by Storage.Transaction; Mcp.Calls parses a
-- result by Mcp.Tools, which reads messages by Mcp.Protocol.
--
-- Loops are recursions on what they go over. Two have a counter of the source's own: the pages of a
-- discovery (`limits.pages`) and the 16 rounds of a call; running out is the error that the source
-- returns. The loop over a header of challenges has fuel, one more than the header is
-- long, as each round takes a character of it. `usize` has 64 bits where a sum is checked.
--
-- Not modelled: src/install but for one check, the removal of the program itself,
-- the network of src/auth, the rest of src/supervisor and src/storage,
-- the transports of src/mcp, the rest of the command line and the output. Locks are
-- the outcome of waiting for them, so two updates are not interleaved, and in Storage.Transaction
-- nobody else writes the file during an update; Storage.Locked has others
-- act before and between its two looks at the file and up to the rename, Cleanup.Remove and the
-- login of Auth.Provider between two looks.
pub mod Auth
pub mod Base
pub mod Json
pub mod Shape
pub mod Config
pub mod Storage
pub mod Trust
pub mod Mcp
pub mod Supervisor
pub mod Ownership
pub mod Cleanup
pub mod Commands
mod Tests
