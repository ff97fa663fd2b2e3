-- ===== src/Lib.antt =====
-- Verification library of Golectra, a metrics agent and server in Go.
--
-- The server keeps gauges (the last value counts) and counters (sums). HTTP handlers decode a
-- request and call the metrics service; the service trims and checks metrics, calls a repository
-- through a port, sends an audit message into a bounded queue, and reports a snapshot to a hook that
-- saves it in a file. The agent collects metrics, and a pool of workers sends them to the server.
-- Calls to the network and to the database go through one retry loop.
--
--  * Base: the names that all files share: tests, lists, Go strings (strings.TrimSpace, the byte
--    order), int64 as a bit pattern below 2 ^ 64 with its wrap-around, and Go maps. A loop over a map
--    is modelled over any order that visits each key once.
--  * Domain: internal/domain (metrics.go, errors.go); Result and Exec, the form of a method that
--    changes an object and may return an error. A float64 is a type parameter: the modelled code
--    stores, copies and prints gauge values, and computes with none.
--  * Ports: internal/ports, the repository as a record of its methods with a contract of laws, and in
--    Ports/Batch and Ports/Flatten what a batch asks for.
--  * Memory: internal/adapters/repository/memory/memory.go. Every method holds the lock for its whole
--    body, so each is one step on the two maps; Memory/Calls is a sequence of calls.
--  * MetricsService: internal/services/metrics/metrics.go, over any repository. Service in
--    MetricsService.antt holds the repository, the audit queue and what was sent to the hook.
--    MetricsService/Dispatcher is the goroutine of initAuditDispatcher with Close, as a step relation;
--    the queue has 128 places, as in the code.
--  * Handler: internal/adapters/http/ginserver/handler.go, from what gin hands over to the response.
--    Handler/Numbers is strconv.ParseInt and FormatInt at base 10; print_digits runs on 20 units of
--    fuel, one for each digit, and 2 ^ 63 has 19 digits. Handler/ReadBack joins an update and a read;
--    Handler/Page and Dashboard are the page of Index. Handler/BatchPool is decodeMetricsBatch with the
--    array that one request leaves to the next, which a body without elements drops; a body is an
--    array, or refused.
--  * Middlewares: internal/adapters/http/ginserver/middlewares (hashsha256.go, gin_gzip.go) and
--    internal/misc/hash.go, around any chain of handlers. The digest, the gzip format and the
--    comparison without case are parameters; the bytes that a gzip.Writer gets are compressed at Close.
--    Middlewares/Served has them in the order in which cmd/server/main.go hands them to NewRouter.
--  * Collector: internal/adapters/collector/runtime. Both goroutines as one step relation, a step for
--    each call of the shared state; what the Go runtime and gopsutil answer is part of a step.
--  * Pool: internal/misc/pool.go, on objects that are numbers, with a store of their contents.
--  * Retry: internal/misc/retry.go, structural in the delays that are left.
--  * Postgres: internal/adapters/repository/postgres/postgres.go on a table. The driver, the codes of
--    pgerrcode and the classes of errors are parameters. UpdateMany is its
--    attempt on a transaction (BeginTx, a statement for each item, Rollback or Commit) in the retry
--    loop; a database whose answer to a commit is lost is left out. Postgres/View, Stored, Writes and
--    Port give the contract of the port; an id is seen by the type of its row.
--  * Persistence: internal/adapters/persistence/file/file.go. The file system, filepath.Dir and
--    encoding/json are parameters.
--  * Config: internal/config (server.go, agent.go, helpers.go) and internal/misc/env.go, from the
--    parsed flags. The environment and the parsers of durations and URLs are parameters.
--  * Observer: pkg/observer/subject.go, which internal/services/audit names anew.
--  * Agent: internal/services/agent (agent.go, sender.go). BatchPublisher is a step relation between
--    the reports, the workers and Stop; the publisher is a parameter. Agent/Totals joins the collector,
--    a report and the service. Agent/Run is Run, a step relation over the ones of the collector and of
--    BatchPublisher, up to the end of both deferred stops. Agent/Fleet is the workers with a server that
--    carries out their requests, with batches and with single metrics, each at some time after a worker
--    has taken the batch, and also requests that fail for the worker.
--  * HttpClient: internal/adapters/publisher/httpjson/client.go. Encoding, compression, signature and
--    net/http are parameters; HttpClient/Delivered joins the client, the middlewares and the handler.
--    HttpClient/Requests builds a request and reads an answer; HttpClient/Pools has the pools of buffers
--    and gzip writers that all goroutines share, with the buffer that each writer writes into, a step
--    for each call of gzipBytes or Release.
--  * Audit: internal/adapters/audit, Notify of the file writer and of the remote client. Audit/Lines is
--    the file writer called by several goroutines.
--  * Server: the choices that cmd/server (init.go, buildAuditor of main.go) makes from the
--    configuration. Server/Saving is the hook that saves snapshots and the ticker of run;
--    Server/Saving/Races are requests that are handled at the same time, one call at a time.
--  * Lint: cmd/staticlint. The analyzer osexitmain walks a syntax tree that keeps what it asks of go/ast
--    and go/types, by structural recursion; the list of analyzers of main.
--  * Reset: cmd/reset (helpers.go, main.go, logic.go), the generator of Reset methods. Reset/Imports
--    is the import manager; its search for an alias runs on one round for each alias in use, which is
--    enough since the numbered aliases differ, and print_digits prints i on i + 1 units of fuel.
--    Reset.antt emits the lines of a field, Reset/Generate a file, Reset/Run one package,
--    Reset/Packages all packages, Reset/Marker the comment that marks a struct. A type is a finite
--    tree: a type that contains itself, on which the generator does not end, is not one. Reset/Root
--    is the search for go.mod in args.go, from a working directory that os.Getwd gave; its rounds are
--    one more than a size of this directory that shrinks towards the root.
--
-- Receivers are never nil. Log lines, times of audit events and texts that an error appends are left
-- out, and a caller's context only carries the client's address and the time.
--
-- Not modelled: main of the agent, which calls the parts above; the default http.Client of the
-- clients, and the HTTP server that main of the server starts. The routing table, migrations and the
-- logger are calls of libraries.
pub mod Base
pub mod Domain
pub mod Ports
pub mod Memory
pub mod MetricsService
pub mod Retry
pub mod Persistence
pub mod Config
pub mod Postgres
pub mod Handler
pub mod Observer
pub mod Agent
pub mod Audit
pub mod Server
pub mod HttpClient
pub mod Reset
pub mod Middlewares
pub mod Collector
pub mod Lint
pub mod Pool
