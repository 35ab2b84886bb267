-- ===== src/Lib.antt =====
-- TorRotatingHttpProxy: an HTTP proxy in front of several Tor instances, each behind one verified
-- exit address, which by default never lends an address out twice. This library models the core of
-- internal/app, written in Go, and proves what makes it correct.
--
-- The parts of the program. A worker per instance (internal/app/tor.go) runs a Tor process, builds
-- a circuit, checks its exit address and publishes it as an endpoint of the pool
-- (internal/app/pool.go); the pool claims addresses in a SQLite table (internal/app/store.go) and
-- hands them out as leases; a worker steers its Tor process through a control connection
-- (internal/app/control.go); the proxy (internal/app/proxy.go) takes a lease for each attempt of a
-- client's request and finishes it with the attempt's result; the load tester
-- (internal/app/loadtest.go) sends requests through the proxy.
--
-- The modules.
--   Prelude, Errors: shared types, tests and lemmas, with Go's int and the functions of package
--     strings that the program calls, on lists of bytes (Prelude.Bytes, Int); Go's errors as their
--     message and the sentinels that errors.Is finds.
--   Store: Store.Observe and Store.Consume of internal/app/store.go, over the parameter Sqlite, one
--     operation for each SQL statement; SqliteLaws is what SQLite documents of those statements,
--     and Store.Memory an instance of it. Store.Listing: Store.Counts and Store.List, over Queries.
--   Pool.Types, Slots, Acquire, Finish: internal/app/pool.go, one function for each method: state,
--     publish, withdraw, Ready (Slots); acquireLocked and acquireReuseLocked (Acquire); the
--     closures behind Lease.Finish (Finish). The endpoints' shared memory is the record's `heap`;
--     a pointer to an endpoint is its number there. `none` is a panic: an index out of range, or
--     the close of a closed channel.
--   Pool.System: each method as one step, since each holds the pool's lock; a list of calls is an
--     interleaving of the program's goroutines, and `run` its outcome. Pool.Waiting is
--     Pool.Acquire, the loop around the scans, whose steps interleave with other calls.
--   Pool.Valid, Kept, Scan, Claims, Runs, Total, Panics, Owned, Once, Ready, RoundRobin, Publication,
--     History: the invariants of the pool and the theorems about it.
--   Cycle: cycle from its call of publish on, and cycleReuse, of internal/app/tor.go, over the pool;
--     Cycle.Cleanup and Cycle.Ends are about what they leave behind. Cycle.Build: cycle up to there,
--     with the building of the circuit; Cycle.Build.Replies is what Tor's answers say there.
--   Proxy: serveForward, serveConnect, acquireError and proxyError of internal/app/proxy.go, with
--     the outcome of each attempt as an argument; Proxy.Turns and Proxy.Failover are about them.
--     Proxy.Attempt: forwardAttempt, connectAttempt and relayTunnel, each with its outcome.
--     Proxy.Idle: idleConn, with its deadlines.
--     Proxy.Listener and Proxy.Limits: boundedListener. Admission: ServeHTTP's guards, with
--     validateConnect. Headers: removeHopHeaders.
--   Control: the scanner and readLoop of internal/app/control.go, on the bytes that come from Tor; the
--     inner loop of a data block is a mode of the reader. Control.Printed is how Tor writes, after
--     its documented protocol; Control.Scanned and Control.RoundTrip are about both. Control.Commands: command and Close,
--     with the reader beside them, as moves that interleave; Control.Commands.Pairing and
--     Control.Commands.Lost are about them.
--   Session: torSession.events of internal/app/tor.go, on the fields of each event; Session.Streams
--     is about the commands it sends.
--   Worker: the loops of RunWorkers and of superviseTor's circuits, in internal/app/tor.go, with what
--     runTor and cycle return as arguments; Worker.Restart and Worker.Backoff are about them.
--     Worker.Bootstrap: superviseTor from its first line on, with bootstrapProgress. Worker.Process:
--     runTor, with the files and the process of an instance. Worker.CheckIp: checkIP.
--   Config: LoadConfig of internal/app/config.go, over an environment.
--   Application: Run and Healthcheck of internal/app/run.go, with the order of the shutdown, and main
--     of cmd/torproxy/main.go.
--   LogWriter: torLogWriter of internal/app/tor.go, which logs what a Tor process prints.
--   Web: handlers of internal/app/web.go, with GET /api/ips as the one that Web.Query and Web.Ips are
--     about.
--   LoadTest: internal/app/loadtest.go; LoadTest.Moves is the loop of each `run` and its goroutines as a
--     step function, LoadTest.Accounts what the statistics keep, LoadTest.Rate what the ring of
--     buckets holds.
--   Tests: concrete runs, and the theorems at concrete inputs.
--
-- Numbers. A uint64 counter wraps at 2 ^ 64 (`incr64`). An `int` that counts requests, endpoints
-- or failures is a natural number: it cannot reach 2 ^ 63. A time is an argument, a number of
-- seconds or milliseconds; random jitter is left out. A scan goes round the slots once, the
-- proxy tries as many leases as there are slots, and the endless loops read the list of what happens
-- to them, which any run of the program gives. Only the log writer's loop has fuel, one step for
-- each byte, and a line takes at least one.
--
-- Not modelled: what Tor, the file system and the processes do; what net/http and net do for an
-- attempt; logging and signals; the dashboard's static files, its stream of events and the encoding
-- of its answers; the float averages of the load tester.
pub mod Prelude
pub mod Errors
pub mod Store
pub mod Pool
pub mod Control
pub mod LoadTest
pub mod LogWriter
pub mod Worker
pub mod Session
pub mod Cycle
pub mod Headers
pub mod Admission
pub mod Config
pub mod Proxy
pub mod Web
pub mod Application
pub mod Tests
