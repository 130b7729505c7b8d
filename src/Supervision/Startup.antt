-- ===== src/Supervision/Startup.antt =====
-- src/main.rs: `run` up to its `select!`, for a configuration that is read: it makes the counters,
-- binds, spawns the log and makes the state, in this order. A failure ends `run`, which closes its
-- listeners; the task of a log that it had spawned is left to the runtime.
pub mod Clean
pub mod Tests
use honey_mind.Base.{if◌then◌else◌, Result, ok, err, ℕ, Bool, Option, none, some}
use honey_mind.Config.Schema.{Config}
use honey_mind.Config.Validate.{ConfigError}
use honey_mind.Logger.{Channel}
use honey_mind.Logger.Sink.{FileSystem}
use honey_mind.Logger.Sink.Lock.{LockFile}
use honey_mind.Logger.Spawn.{NewChannel, SpawnError, spawn, Opening}
use honey_mind.Logger.Writer.{Writer}
use honey_mind.Metrics.{Metrics, new_metrics}
use honey_mind.Server.Admission.{Semaphore, AppState, new_state}
use honey_mind.Server.Binding.{Network, BoundServer, BindError, bind, close_all}

pub data StartError : Type 0 where
  metrics_failed : StartError
  bind_failed : BindError → StartError
  logger_failed : SpawnError → StartError
  state_failed : ConfigError → StartError

-- The sockets and the files of the host.
pub record Host (N F : Type 0) : Type 0 where
  pub sockets : N
  pub files : F

-- What the tasks of the process are spawned with.
pub record Prepared (Q F S : Type 0) : Type 0 where
  pub bound : BoundServer
  pub writer : Writer Q F
  pub state : AppState S

module _ {N Q F S : Type 0} {channel : Channel Q} {fs : FileSystem F} (net : Network N)
    (queues : NewChannel channel) (lock : LockFile fs) (sem : Semaphore S) where
  abbrev pub close_management : N → Option ℕ → N
  close_management n none = n
  close_management n (some l) = net.close n l

  -- The drop of a `BoundServer`.
  abbrev pub close_bound : N → BoundServer → N
  close_bound n b = close_management (close_all net n b.endpoints) b.management

  abbrev pub StartOutcome : Type 0
  StartOutcome = Host N F × Result (Prepared Q F S) StartError

  abbrev pub state_next :
      N → F → BoundServer → Writer Q F → Result (AppState S) ConfigError → StartOutcome
  state_next n f b w (err e) =
      (record { sockets = close_bound n b; files = f }, err (state_failed e))
  state_next n f b w (ok a) =
      (record { sockets = n; files = f }, ok (record { bound = b; writer = w; state = a }))

  abbrev pub logger_next :
      Config → Metrics → N → BoundServer → F × Result (Writer Q F) SpawnError → StartOutcome
  logger_next cfg m n b (f, err e) =
      (record { sockets = close_bound n b; files = f }, err (logger_failed e))
  logger_next cfg m n b (f, ok w) = state_next n f b w (new_state sem cfg m)

  abbrev pub bind_next :
      Config → Metrics → Opening → F → N × Result BoundServer BindError → StartOutcome
  bind_next cfg m opening f (n, err e) = (record { sockets = n; files = f }, err (bind_failed e))
  bind_next cfg m opening f (n, ok b) =
      logger_next cfg m n b (spawn queues lock cfg.logging m opening f)

  -- `metrics_made` tells whether `Metrics::new` succeeds, and `opening` how the sink of the log is opened.
  pub start_up : Config → Bool → Opening → Host N F → StartOutcome
  start_up cfg metrics_made opening h =
      if metrics_made
      then bind_next cfg new_metrics opening h.files (bind net cfg h.sockets)
      else (h, err metrics_failed)
