-- ===== src/Lib.antt =====
-- obsctl-rs: a daemon that keeps a connection to OBS, a cached snapshot of what OBS shows and a
-- socket for clients (a command line and a terminal interface). This library models the program's
-- own decisions, from the Rust sources under src/ of the repository, and proves what they promise.
--
-- The parts, and where they stand:
--   Prelude, Text, Sets, Numbers: what the code takes from Rust's standard library. A `&str` is the
--     list of its characters; `HashSet` is a list without repetition; `Result` with `?` is `>>=`.
--   Errors: src/domain/errors.rs and the error types of src/support/validation.rs. The words of a
--     message are not modelled: each `format!` is a constructor with the values it prints.
--   Names: src/domain/names.rs, over the token checks of src/support/validation.rs.
--   Password: the password's resolution in src/support/validation.rs.
--   Aliases: src/domain/aliases.rs. `resolve_with` is the resolver; Aliases/Reference describes the
--     entries that a target may mean; Aliases/Match, Unique, Resolve and Ambiguous say what it answers and what the check on a configuration gives it.
--   Visibility: src/domain/scene_profiles.rs.
--   Volume: src/domain/volume.rs, over a parameter for `f64`.
--   Command, Tokens, Palette: src/domain/command.rs and src/domain/parser.rs, with `quote_argument` of
--     src/tui/completion.rs. An index out of range, which is a panic, is `none`.
--   Config: src/config/model.rs; Config/Schema: src/config/schema.rs; Config/Dump:
--     src/config/dump.rs, the merge of OBS's scenes and inputs into a configuration.
--   Tables, Ipc: the command table (Ipc/Commands), the topics (Ipc/Topics) and the public error codes
--     (Ipc/ErrorCodes) of src/ipc/protocol.rs; `iter().find` on a constant table is `find`.
--     Ipc/Codec: src/ipc/codec.rs. A wait for the socket is a parameter, `read_until`, with what it
--     appended to the buffer and whether it was finished, failed or dropped; a call that was dropped is
--     `none`, and Ipc/Codec/Session makes it again.
--   Obs: src/obs/state.rs and the events of src/obs/client.rs; Obs/Requests: src/obs/requests.rs,
--     without the number of a request.
--   Server/Adapter: src/server/obs_event_adapter.rs. Server/Hub: `BroadcastHub` of
--     src/ipc/session.rs and the published messages of src/ipc/protocol.rs; a channel is the list of
--     what was sent on it.
--   Server/Projection, Server/Apply, Server/Store: src/server/state_store.rs. Each method of
--     `StateStore` is a function of the same name on a record of the snapshot, the hub and the
--     generation counter, which wraps at 2^64. A method writes and broadcasts under one write lock,
--     so what concurrent tasks do is a list of writes in some order: Server/Store/Steps runs one. The
--     one exception is that `apply_full_refresh` reads the counter after it has released the lock; the
--     model reads it with the swap, so a write that lands between the two counts as a later one.
--   Server/Refresh: src/server/snapshot_refresh.rs. A fetch is given as what OBS answered, the
--     configuration that was read, and the writes that landed while it ran.
--   Server/Fetch: the fetches of src/server/snapshot_refresh.rs, over src/obs/validation.rs.
--   Server/Args: src/server/command_args.rs. Server/Executor: src/server/command_executor.rs. A
--     command is an action on a record of the store, the configuration in memory, the file, the
--     requests sent and the lines logged, which `do` and `?` become `>>=` of. Control has the
--     commands that ask OBS, Files the edit and the reload of the configuration, Profiles the scene
--     profiles, Dump `dump-config`, and Handle the dispatch and a connection's commands in their
--     order; Quiet, Runs, Target, Migrated, Loads and Edit hold proofs.
--   Reconnect: src/runtime/reconnect_policy.rs. Series: src/tui/series.rs.
--
-- How the parts meet: a configuration that passes Config/Schema makes a `ConfigProjection`, which
-- the store applies to what a refresh fetched; events of OBS are folded into the snapshot by
-- Server/Apply; the snapshot's tables are what Aliases resolves a client's target against; the
-- palette's commands carry such targets; and Server/Executor reads a payload with Server/Args,
-- resolves its target against the store, sends a request of Obs/Requests, or edits the configuration
-- and merges it into the store.
--
-- Parameters: the operations of `f64` (Volume.Floats), JSON (Server.Hub.Wire and
-- Server.Fetch.Json), what OBS answers to a request after those sent before, the random part of a
-- delay, the environment (Password.Environment), the check on the socket path, and for a command
-- (Server.Executor.Setup) the file system at the configuration's path, YAML, the texts of errors and
-- their redaction. Nothing is assumed of them, but where a theorem says so that a snapshot can be
-- serialized, or that a write replaces the file or leaves it and YAML is read back as it was written,
-- without the section that `serde` skips (Server.Executor.Edit.IsFileSystem); and of the reading of bytes, UTF-8 and the serializer what
-- their documentation says (Ipc.Codec.Reads.IsSource, Ipc.Codec.Frames.IsFormat).
--
-- Bounds: the only fuel is the number of attempts of `refresh_attempts`, which is the code's own
-- MAX_REFRESH_RETRIES; every other loop is structural recursion.
-- Ipc/Codec/Session counts the calls of a run, and what it delivers is said for every number of them.
-- A theorem on the generation counter asks for fewer than 2^64 counted writes between two readings.
--
-- Not modelled: sockets, the steps of a replacement of a file, the text of YAML and JSON, the
-- redaction of secrets, the WebSocket client and the decoding of its events, the task plumbing of the
-- daemon, the terminal's drawing and input, the command line and the service installer. A command
-- runs alone: the lock on the configuration's file, the waits between its steps and the lanes that
-- order commands are left out.
pub mod Prelude
pub mod Text
pub mod Errors
pub mod Tables
pub mod Ipc
pub mod Names
pub mod Sets
pub mod Numbers
pub mod Volume
pub mod Visibility
pub mod Config
pub mod Command
pub mod Tokens
pub mod Password
pub mod Palette
pub mod Series
pub mod Reconnect
pub mod Obs
pub mod Server
pub mod Aliases
