-- ===== src/Lib.antt =====
-- kvp: a key-value server over SQLite with an optional memory layer, as a library of definitions and
-- theorems.
--
-- Parts of the program. internal/store keeps the rows of `kv_store` and, where a memory limit is
-- configured, a map of entries that serves the reads, a byte counter and a set of dirty keys.
-- internal/server answers HTTP requests from the store. internal/cleanup runs the expiry sweep, the
-- size eviction, the flush and the backup against it. internal/config reads the environment,
-- internal/telemetry holds the instruments and the health registry, and cmd/kvp builds the process
-- from all of them, runs its jobs and shuts it down.
--
-- Files. Prelude: shared names, tests, lists over the native numbers and ℤ. Assoc: association lists
-- for Go's maps.
--   Store/Mode: `PutMode`, `String` and `ParsePutMode`.
--   Store/Clock: the times and the text form of an instant, an instance argument.
--   Store/Sql: the SQL statements as functions on the list of rows.
--   Store/State: `entry`, `Store`, and one function for each critical section of the mutex.
--   Store/Write: `PutWithMode` and `Flush`. Store/Read: `Get` and `Open` with `loadCache`.
--   Store/Expire: `DeleteExpired`, `Usage`, `Size`, `RowCount`. Store/Evict: `EvictOldest`.
--   Store/Backup: `Backup`, `RetainBackups`, `Ping`, `IncrementalVacuum`, on a folder of files; with
--   Order (the order of names), Names (one removal), Retention and Newest.
--   Store/Rows, Store/Valid and Store/Safety: the invariant of the store and that it is kept.
--   Store/View: what a read sees of each key, as the specification of the store.
--   Store/Durable: what the rows hold of each key, for flush, restart and failure; Coherent, Flushing,
--   Sound and Opening: the agreement of the memory layer with the rows, and what keeps it; Pending,
--   Waiting, Unspoiled and Deletions: with the background deletions of `getCached`.
--   Store/Losses and Store/Floor: the floor under an eviction. Store/Counts: the numbers that deletions
--   return. Store/Threads: interleavings of atomic steps.
--   Server/RateLimit: `rateLimiter`, with Levels (how full a bucket is), Bound, Retry and Pruned.
--   Server/Http: the requests, the responses, `Options` and `newServer`. Server/Handlers: `route`,
--   `serveGet`, `servePost` and their helpers. Server/Middleware: the chain that `handler` builds.
--   Server/Recorder: `responseRecorder`, `countingBody` and the metrics of `accessLog`.
--   Server/Replies: what clients are answered. Server/Keeps and Server/Safety: what a request keeps of
--   the store and what it may change.
--   Server/Served: the rate limit through the whole chain.
--   Cleanup: one pass of each job and the two critical sections of `MaybeEvict`. Cleanup/Safety and
--   Cleanup/Flight: what the jobs keep, and how callers of `MaybeEvict` interleave. Cleanup/Jobs: the
--   Backuper and the loops over the ticks. Cleanup/Backups: what a pass of the Backuper leaves.
--   Config: the parsers of integers and addresses, the commit mode and the size of the memory layer.
--   Config/Values: the other parsers. Config/Parse and Config/Settings: `Config`, `assign` and `Parse`.
--   Config/Configured: what the environment asks for, setting by setting. Config/Meaning, Config/Known
--   and Config/Accepted: that `Parse` does it.
--   Telemetry/Setup: `New`, `parseLevel`, `parseEndpoint`, `Shutdown`. Telemetry/Instruments:
--   `Metrics`. Telemetry/Health: `Health` and its handlers. Telemetry/Ready: what an answer means.
--   Commands: `run` up to the listeners and from the signal on, and deploy/hc. Commands/Events: what
--   happens in between. Commands/Started, Commands/Valid and Commands/Restart: how the process is set
--   up, that events keep the invariant, and what survives a restart; Commands/Keeps has what the two
--   share.
--   Examples: a clock and stores at which the Tests of each part apply the theorems.
--
-- How the state corresponds. `Store.db` is the database, with the rows and, as inputs, the outcome of
-- each call to come and the answers of the size queries; `cache`, `cache_bytes`, `mem_limit` and
-- `dirty` are the fields of Go's `Store`; `stragglers` are the goroutines of `getCached` that have not
-- run. An operation takes the clock's reading and returns its result, its error and the new store.
-- Numbers are unbounded; the byte counter is an integer, as Go's may go below zero.
--
-- Bounds and fuel. The loops of an eviction recurse on `maxRuns`, as the code counts its runs. The
-- split into chunks recurses on the length of the list, which every chunk shortens, and the chunks
-- are shown to be the whole list. All other loops recurse on a list.
--
-- Assumed. A statement of SQLite that succeeds has its documented effect on the rows, and one that
-- fails changes none. A formatted time parses to the time; the times of backups lie before the year
-- 10000, up to which their names are ordered as they are. The order of Go's maps and of equal keys
-- in `sort.Slice` is left open by Go and is fixed here.
--
-- A request takes the clock's readings of its middlewares and the id that a UUID library would make,
-- and gives a response and the new `Server`. A panic is an outcome, which the recovery answers.
-- The rate limiter's float64 arithmetic stands as exact arithmetic on fractions.
--
-- Outside the repository, and parameters here: the functions of net, net/netip, net/url, time and
-- strconv that read a text (`Net`, `Parsers`, `TimeText`, `Stamp`) and what the SDK of OpenTelemetry
-- can build (`Sdk`). Calls into SQLite and the file system succeed or fail as a list of outcomes says.
--
-- Not modelled. Logging, the static files, the constructors that only fill in fields, the listeners
-- and signals around `run`, and contexts and deadlines, other than as calls that fail. The events of
-- Commands come one at a time; how the steps of several operations interleave is Store/Threads.
-- The measurements that the handlers make are functions in Telemetry/Instruments and are not collected
-- in the server.
pub mod Prelude
pub mod Assoc
pub mod Store
pub mod Server
pub mod Cleanup
pub mod Config
pub mod Telemetry
pub mod Commands
pub mod Examples
