-- ===== src/Lib.antt =====
-- The honeypot of this repository: it listens on decoy endpoints, holds a bounded dialogue with
-- whoever connects, and records each session for a log, without secrets unless it is told to keep
-- them.
--
-- Parts and files, with the paths from the repository's root:
--   Config          src/config.rs: addresses (Address), types and defaults (Schema), `validate` with
--                   its helpers (Validate), and `from_path` (File, over the paths of Path).
--   Ratelimit       src/ratelimit.rs: `RateLimiter`, its bounds (Bounds) and its meaning against the
--                   history of admissions (History).
--   Session         src/session.rs: `SessionState` and its operations (State), the invariant (Bounds),
--                   capture (Capture) and noninterference (Privacy).
--   Protocols       src/protocols: `SessionIo` of mod.rs (Io), the decoys raw.rs (Raw), ssh.rs (Ssh),
--                   telnet.rs (Telnet) and http.rs (Http), and `handle` of mod.rs (Dispatch). Clients
--                   that send given chunks (Io.Script) meet them in Ssh.Client, Telnet.Login.Client and
--                   Http.Exchange.
--   Metrics         src/metrics.rs: the counters and the management handler.
--   Logger          src/logger.rs: the queue of records and the loop of its writer (Events, Account), the
--                   file sink with its rotation (Sink) and its lock (Sink.Lock), the writer with its
--                   outputs (Writer), and `spawn` (Spawn).
--   Server          src/server.rs: admission of a connection and maintenance (Admission),
--                   `handle_session` (Session), `bind` (Binding), the loop of `run_endpoint` (Loop), the
--                   workers together (Endpoints), and `BoundServer::run` with what it spawns and returns
--                   (Run, Workers); and
--                   `serve` of src/metrics.rs, which has the same loop (Management).
--   Supervision     src/main.rs: `run` up to its `select!` (Startup), and from there on with `joined`,
--                   `finish` and `merge` (Shutdown), together with the log queue (Flushed), and as a
--                   whole, with the reading of the configuration and the signals (Run).
--   Healthcheck     src/main.rs: `healthcheck`, and against the management handler (Readiness).
--   Cli             src/main.rs: `main` and `dispatch`, and what an exit with success does (Exit).
--   Base            the tests, lists, texts, results and UTF-8 decoding that the parts share.
--
-- How they interact: the server admits a connection by the limiter and the semaphore, `handle_session`
-- makes a session from the configuration and runs the decoy of the endpoint on it, the decoy changes the
-- session by `record_bytes` and `push_event` only, and `finalize` turns the session into the record,
-- which goes to the logger. The process binds its listeners, spawns the log and then the server; at a
-- signal or a failure it cancels the token, waits for the server, and then for the log.
--
-- How code becomes definitions: a `&mut self` method is a function from the state to the state and
-- its result. Texts and buffers are lists of bytes; a number is a natural number, with the wrap or
-- the saturation of the source written out where it can happen. An async handler is a function on the
-- session and the world behind its stream, which ends, is dropped at a wait by the supervisor, or is out
-- of fuel. Every round of a handler's loop that goes on has read at least one byte, so that a fuel above
-- what the session may still read, `remaining_input`, is enough. The parser of TOML, hexadecimal
-- encoding, the stream, the sockets, the semaphore and the channel of tokio, the file system with the
-- lock of the log, the reason phrases of hyper and the encoder of prometheus are parameters, with what
-- their documents promise as fields or hypotheses.
--
-- A loop that waits in a `select!` is a relation of single steps between worlds: the state it shares, the
-- token, and its tasks. A poll of the `select!` is several such steps, as is the admission of a connection,
-- since other threads may act in between. The workers, the tasks of their sessions and the maintenance take such steps in
-- any order. What a top-level task yields within its grace, and what a peer answers a probe, are functions
-- that the definitions take.
--
-- Not modelled: the log lines of tracing, and in src/main.rs the parsing of the arguments and the building
-- of the runtime, which are calls of clap and tokio. What hyper does on a management connection is a
-- parameter, as is the time that it may take.
mod Base
pub mod Config
pub mod Ratelimit
pub mod Session
pub mod Protocols
pub mod Metrics
pub mod Logger
pub mod Server
pub mod Supervision
pub mod Healthcheck
pub mod Cli
