-- ===== src/Supervision/Run.antt =====
-- src/main.rs: `run` as a whole, from the path of its configuration to its outcome, and `wait_for_signal`.
-- What happens to a process that has started is an argument, its `Life`.
pub mod Success
pub mod Tests
use honey_mind.Server.Admission.{Semaphore}
use honey_mind.Logger.Sink.Lock.{LockFile}
use honey_mind.Logger.Spawn.{NewChannel, Opening}
use honey_mind.Base.{
  ◌>>◌, if◌then◌else◌, option_map, ensure, Result, ok, err, Bool, not, ◌&&◌, Option, List, [], ◌∷◌,
  ◌++◌, Bytes,
}
use honey_mind.Config.Address.{is_loopback}
use honey_mind.Config.File.{LoadError, ConfigFiles, from_path}
use honey_mind.Config.Schema.{Config, is_full}
use honey_mind.Logger.{Channel, Logging}
use honey_mind.Logger.Events.{Event}
use honey_mind.Logger.Events as Events
use honey_mind.Logger.Sink.{FileSystem}
use honey_mind.Server.Binding.{Network, BoundServer}
use honey_mind.Server.Loop.{Fault}
use honey_mind.Server.Run.{Ends, run_bound}
use honey_mind.Server.Workers.{TaskEnd, completed, join_failed, ServerError, Shared}
use honey_mind.Supervision.{
  Process, RunError, Ending, Outcome, signalled, server_ended, logger_ended, signal_failed, spawned,
  run_until,
}
use honey_mind.Supervision.Flushed.{writer_end}
use honey_mind.Supervision.Startup.{Host, Prepared, StartError, start_up}

-- What the `select!` of `wait_for_signal` sees first: SIGINT, if its handler works, or SIGTERM, if its
-- stream is open.
pub data Signal : Type 0 where
  interrupt terminate : Bool → Signal

pub data TaskError : Type 0 where
  server_failed : ServerError Fault → TaskError
  write_failed : TaskError

-- `installed` tells whether the handler of SIGTERM could be installed.
abbrev pub wait_for_signal : Bool → Signal → Outcome TaskError
wait_for_signal installed (interrupt works) =
    ensure installed signal_failed >> ensure works signal_failed
wait_for_signal installed (terminate is_open) =
    ensure installed signal_failed >> ensure is_open signal_failed

pub data Warning : Type 0 where
  full_capture open_management : Warning

-- What `run` warns of.
pub warnings : Config → List Warning
warnings cfg =
    (if is_full cfg.privacy.mode then full_capture ∷ [] else [])
    ++ (if cfg.metrics.enabled && not (is_loopback cfg.metrics.bind.ip)
        then open_management ∷ []
        else [])

-- How the task of the server ends: by a panic, or by a return, as its workers end.
pub data ServerTask : Type 0 where
  task_lost : ServerTask
  task_returned : Ends Fault → ServerTask

-- How the `select!` of `run` ends.
pub data Waited : Type 0 where
  by_signal : Bool → Signal → Waited
  by_server : ServerTask → Waited
  by_logger : TaskEnd TaskError → Waited

-- A process from the end of its start on: how its wait ends, the token and the counters then, how its server
-- ends within the grace, and what becomes of the log: the calls and the rounds of the writer up to the
-- wait for it, and whether there are senders of the queue then. `info` tells whether `info!` is logged.
pub record Life : Type 0 where
  pub info : Bool
  pub waited : Waited
  pub shared : Shared
  pub server_task : Process → Option ServerTask
  pub history : Process → List Event
  pub has_senders : Process → Bool

pub data ProcessError : Type 0 where
  config_failed : LoadError → ProcessError
  start_failed : StartError → ProcessError
  run_failed : RunError TaskError → ProcessError

abbrev pub or_server_failed : Result (Unit {0}) (ServerError Fault) → Result (Unit {0}) TaskError
or_server_failed (ok u) = ok u
or_server_failed (err e) = err (server_failed e)

abbrev pub or_run_failed : Outcome TaskError → Result (Unit {0}) ProcessError
or_run_failed (ok u) = ok u
or_run_failed (err e) = err (run_failed e)

-- Of what the start has prepared: the sockets, the configuration, the listeners and the log.
module _ {N Q : Type 0} (channel : Channel Q) (net : Network N) (n : N) (cfg : Config)
    (bound : BoundServer) (logging : Logging Q) (l : Life) where
  abbrev pub task_end : ServerTask → TaskEnd TaskError
  task_end task_lost = join_failed
  task_end (task_returned e) =
      completed (or_server_failed (run_bound net l.info n cfg bound l.shared e).1)

  abbrev pub server_ends : Process → Option (TaskEnd TaskError)
  server_ends q = option_map task_end (l.server_task q)

  abbrev pub log_ends : Process → Option (TaskEnd TaskError)
  log_ends q =
      writer_end channel write_failed (l.has_senders q) (Events.run channel logging (l.history q))

  abbrev pub ending : Waited → Ending TaskError
  ending (by_signal installed signal) = signalled (wait_for_signal installed signal)
  ending (by_server task) = server_ended (task_end task)
  ending (by_logger e) = logger_ended e

  -- `run`, from its `select!` on
  abbrev pub live_until : Process × Outcome TaskError
  live_until = run_until server_ends log_ends (ending l.waited) (spawned l.shared)

-- The warnings, the host once `run` has started or failed to, and the outcome.
pub record Ran (N F : Type 0) : Type 0 where
  pub warned : List Warning
  pub host : Host N F
  pub outcome : Result (Unit {0}) ProcessError

module _ {N Q F S : Type 0} {channel : Channel Q} {fs : FileSystem F} (net : Network N)
    (queues : NewChannel channel) (lock : LockFile fs) (sem : Semaphore S)
    (life : Config → Prepared Q F S → Life) where
  abbrev pub after_start : Config → Host N F × Result (Prepared Q F S) StartError → Ran N F
  after_start cfg (h, err e) = record {
    warned = warnings cfg;
    host = h;
    outcome = err (start_failed e);
  }
  after_start cfg (h, ok p) = record {
    warned = warnings cfg;
    host = h;
    outcome =
        or_run_failed
          (live_until channel net h.sockets cfg p.bound p.writer.logging (life cfg p)).1;
  }

  abbrev pub after_load : Bool → Opening → Host N F → Result Config LoadError → Ran N F
  after_load metrics_made opening h (err e) = record {
    warned = [];
    host = h;
    outcome = err (config_failed e);
  }
  after_load metrics_made opening h (ok cfg) =
      after_start cfg (start_up net queues lock sem cfg metrics_made opening h)

  -- `run`; `metrics_made` and `opening` are those of the start.
  pub run : ConfigFiles → (Bytes → Option Config) → Bool → Opening → Host N F → Bytes → Ran N F
  run files toml_from_str metrics_made opening h path =
      after_load metrics_made opening h (from_path files toml_from_str path)
