-- ===== src/Lib.antt =====
-- Aerugo Cache, an in-memory cache that speaks the Redis protocol (src/ of the repository).
--
-- A connection (src/server.rs) reads frames (src/protocol), parses each into a command and executes it
-- (src/command.rs) on the shared store (src/storage.rs), appends the durable form of a command that
-- succeeded to a file (src/persistence/aof.rs), and writes the reply. On start the file is replayed.
-- The client (src/client.rs) writes a request and reads a reply. The dashboard (src/tui.rs) asks a server
-- for its statistics and its keys through the client, and shows them. The command line (src/main.rs)
-- configures the server or the dashboard.
--
-- Storage models src/storage.rs. Storage.Config: StoreConfig, EvictionPolicy, StoreError, Ttl.
-- Storage.Entry: Entry, Value and the memory estimate. Storage.Evict: remove_if_expired,
-- restore_entry, pick_eviction_key, evict_until_within_limit, enforce_memory_limit. Storage.Store:
-- MemoryStore and set, get (get_string here), del, exists, expire, expire_at_unix, ttl, persist,
-- cleanup_expired. Storage.Lists: push, pop, lrange and normalize_range. Storage.Reports: stats and
-- inspect_keys. The end that set and push share is finish_write. Storage.Memory counts the memory of the
-- entries without the wrap-around of the estimate. An operation holds the write lock of
-- the entries throughout, so it is a function from a store to a reply and a store; what it reads
-- of the clock is an argument, the sequence of its readings. The counters, which have a lock of their
-- own, are part of the same step.
-- HashMap models the standard library's map as a list of rows. The order in which a map iterates is
-- the order of that list, and the theorems hold of every order. Storage.View says what shows: the
-- rows that have not expired. Usize sums wrap at 2 ^ 64, as in a release build.
-- Protocol models src/protocol. Protocol.Frame, Protocol.Encoder (write_frame), Protocol.Parser
-- (read_frame and its helpers). A stream is the list of the bytes that are still to come, up to its
-- end. The size of a frame in memory, on which the panic of Vec::with_capacity depends, is a
-- parameter. That memory below isize::MAX may be short is not modelled.
-- Command models src/command.rs. Command.Types: Command, CommandError. Command.Parse: from_frame.
-- Command.Execute: execute. Command.Durable: to_aof_frame.
-- Aof models append and replay of src/persistence/aof.rs; what the file system does with an append
-- is a parameter. Server models handle_connection and append_command of src/server.rs,
-- Server.Start the start of run, and Server.Interleaving the steps of several connections and of
-- the cleanup task, execute and append being steps of their own, of which the file system may let
-- the second fail. Client models RespClient of src/client.rs, connect and command.
-- Dashboard models src/tui.rs. Dashboard.Fetch: fetch_snapshot. Dashboard.Stats and Dashboard.Keys: the
-- parsers of the two replies. Dashboard.App: DashboardApp, refresh_snapshot, run_loop, run; what the
-- terminal and the server do in a round of the loop is data of the round. Dashboard.Format: format_ttl
-- and format_bytes. Dashboard.Gauge: render_memory. Dashboard.Render: the texts of the tables and of the
-- footer.
-- Cli models src/main.rs: parse_byte_size, and the configurations that main makes.
-- Prelude, Text and HashMap hold what the source takes from the standard library: numbers, text in
-- UTF-8 as lists of bytes, str::parse and to_string of integers, str::lines, split_once and trim, sizes
-- as f64, the clock.
--
-- Bounds. The decoder runs on fuel, a unit for each frame and each item; twice the length of the
-- stream and one is enough (Protocol.Total). The loops of replay and of a connection take a byte at
-- least with each frame, so the length of the input and one is enough (Aof.Total, Server.Total). Each
-- round of the eviction loop removes a row, so the number of rows and one is enough (Storage.Evict.Loop).
-- Trimming takes a character with each round, so the length of the string is enough. The loop of the
-- dashboard runs on the rounds that it is given, and the theorems hold of every list of rounds. A size as
-- an f64 loses 11 bits at most, and a quotient of two sizes is rounded in units of 2 ^ -117.
-- A time is a number of nanoseconds after the Unix epoch, with seconds in an i64; a clock before the
-- epoch is not modelled.
--
-- Not modelled: the layout and the styles of the dashboard, the text of its header, which prints the age
-- of the last refresh as an f32, the declarations of the arguments of the command line, opening files and
-- sockets, and the accept loop of src/server.rs.
pub mod Prelude
pub mod HashMap
pub mod Text
pub mod Protocol
pub mod Storage
pub mod Client
pub mod Command
pub mod Dashboard
pub mod Cli
pub mod Aof
pub mod Server
pub mod Tests
