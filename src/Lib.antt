-- ===== src/Lib.antt =====
-- Verification of the manager of cf-herdr-poc, which keeps sandboxes: Cloud Foundry apps that run a
-- repository and join a pack of Collie members.
--
-- Browsers reach the manager through its API (internal/httpapi), which creates and deletes
-- sandboxes and starts the jobs that reconcile them. The manager stores sandboxes in a JSON file
-- (internal/store). Its reconciler (internal/reconcile) takes each sandbox through the phases of a
-- creation or a deletion: it calls the Cloud Foundry provider (internal/cf), which runs `cf`
-- commands (internal/runner), the pack manager (internal/pack), the runtime bundle
-- (internal/runtime), which clones a repository and lays the runtime of sandboxes over it, and a
-- probe, and stores each step before it makes it. Beside each sandbox a server
-- (internal/bootstrap) lets it join the pack when the manager asks for it by a call that identifies
-- itself by a certificate (internal/identity). The manager (cmd/manager) is set up from its
-- environment (internal/config), starts and stops Herdr, Collie (internal/supervisor), the
-- reconciler and the web server, and restarts Collie when the state of the pack changes.
--
--   Base         shared names, tests, maps, lists, errors, methods with state and errors (Exec, Does,
--                Preserves), rows of checks (Results)
--   Paths        path/filepath as the program uses it, and `requireChild`; Laws: proofs
--   Model        internal/model/sandbox.go
--   Store        internal/store/file.go: `File.Load` is `load`, `File.Create` is `create`, and so on;
--                Order, Laws, Listing: the map and its list; Spec: the abstract store; Disk: the file
--   Sanitize     `sanitize` of internal/reconcile, internal/httpapi and internal/bootstrap
--   Reconcile    internal/reconcile/reconciler.go. Effects: `persistPhase`, `fail`, `poll` and the
--                calls; Create: the switch of `reconcileCreate`, a function for each case; Loop:
--                its loop, `ReconcileOne`, `Retry`, `scan`; Delete: `reconcileDelete`, a function
--                for each block. Held, Phases, Rounds, Removal, Retry: proofs;
--                Success, Steps, Enrolled, Discovered, Fuel, Chain, Termination: the end of the loop.
--                Workers: the locks of `ReconcileOne`; Lifecycle: `Start` and `Stop`
--   Cf           internal/cf/provider.go. Output: the redaction of output; Execute: `execute`,
--                `executeMany`; Apps, Routes, Enroll, Inspect: the operations; Login:
--                internal/cf/auth.go; Text, Ownership: proofs
--   Runner       the output buffer of internal/runner/exec.go
--   Environment  internal/collie/environment.go
--   Supervisor   internal/supervisor/collie.go: `startLocked`, `stopLocked` and the goroutine of a
--                child as steps that interleave; Single: proofs. Ready: the loop of `Ready`;
--                Process: the stop of a process group; Setup: the configuration and the probes
--   Http         internal/httpapi: Serve: `ServeHTTP`; Api: the handlers of the API; Access: the token
--                and the session; Names: the checks of input; Proxy: what Collie is sent; Jobs: the
--                jobs and `Close`; View: sanitize.go. Safety, Sessions, Accepted, Closed: proofs
--   Bootstrap    internal/bootstrap/server.go: `join`, the marker of a joined member (Marker), and
--                proofs (Joined, Settled)
--   Pack         internal/pack/manager.go: invitations (Tokens, Failed), the roster (Roster), `Cleanup`
--                of an enrollment (Handle)
--   Bundle       internal/runtime/bundle.go. Checks: what is checked; Overlay: `Prepare`,
--                `InstallEnrollment`; Clear, Inside, Gone, Valid: proofs
--   Identity     internal/identity/client.go
--   Imports      cmd/checkimports/main.go. Lex: the lexer and the imports of a file; Closure: the
--                search; Tokens, Closed, Enough, Printed, Outcome: proofs
--   Configuration  internal/config/config.go: `Load`, and what it checks (Checked)
--   Manager      cmd/manager. Run: the calls of `run` (Traces, Orderly: proofs); Monitor:
--                pack_monitor.go (Debounced, Settled: proofs); Settings: the directories and the cf
--                executable; Wiring: smaller functions of main.go
--   Examples     concrete systems to which the theorems are applied
--
-- State. Each method is a function from a state to a result and a state. What lies outside the
-- memory of the manager is a type `W`, which system calls, the clock, commands and the other
-- services read and change; these are parameters (`FileSystem`, `Services`, `Platform`, `Runner`,
-- `System`, `Library`), and each call of them may fail. Mutexes make each method of the store one
-- step and let one reconciliation run at a time; the locks of the reconciler are modelled by
-- themselves (Reconcile.Workers, Reconcile.Lifecycle). Requests run at the same time as jobs and
-- other requests: what these do in the gap `i` of a request is a function `others i`, which may be
-- any. For the reconciler this is not modelled: a request of the API that marks a deletion or asks
-- for a retry is taken to come before or behind a method of the reconciler, not while the method
-- is in a call or a poll. Names are `String`; text that is cut is a
-- list of bytes, and may be cut inside a character: where the source maps the runes of a text, bytes
-- that are not UTF-8 become U+FFFD, and so they do in the state file. Instants are counts of
-- nanoseconds.
--
-- Fuel. `reconcile_create` takes the number of rounds of the loop that it may run, and returns
-- `out_of_fuel` behind them: the loop of the source has no bound, as an enrollment that expires
-- sends it back to an earlier phase each time. A creation has 12 phases before `ready`, of which a
-- lost enrollment can make it visit one more, `discovering-app`, once again; so the fuel that is
-- used is 14. The wait for a process group to end takes the number of its rounds, which are 10 ms
-- apart: the timeout divided by 10 ms, and 2, which suffice if the clock goes on by at least the
-- time slept. The loop of `Ready` is a row of what ends each of its waits, the monitor of the pack a
-- row of ticks. The lexer of cmd/checkimports runs on the size of the text, as each
-- round takes a byte, and its search on the number of files that there are and one more, as each
-- call sees a new file. Every other loop is recursion on the data that it walks, or on its number of
-- attempts.
--
-- Not modelled: the start of a process below the supervisor, the reply to a connection and the
-- pipes of commands, which are the operating system's; `New` and the encoding of replies of the
-- HTTP API, the defaults of the pack manager and `New` of the bootstrap server, which only fill in
-- fields; the values that `run` hands from one part to the next, and the timeouts of its server;
-- `ValidateProduction`, whose error depends on the order of a Go map; the command
-- cmd/sandbox-bootstrap, which is network work, and the build tool cmd/copytree,
-- which is no part of the running program. Parameters are: regular expressions,
-- net/url, hashes, certificates, and the walks of the file system, which list what is there when
-- they start.
mod Base
pub mod Paths
pub mod Model
pub mod Store
pub mod Sanitize
pub mod Reconcile
pub mod Cf
pub mod Environment
pub mod Runner
pub mod Supervisor
pub mod Http
pub mod Bootstrap
pub mod Pack
pub mod Bundle
pub mod Identity
pub mod Imports
pub mod Configuration
pub mod Manager
mod Examples
