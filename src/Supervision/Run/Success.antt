-- ===== src/Supervision/Run/Success.antt =====
-- What a process that ends with success has done.
use honey_mind.Config.File.Loaded.{IsSound, from_path-IsSound}
use honey_mind.Supervision.Startup.Clean.{IsClean, start_up-IsClean}
use honey_mind.Server.Binding.Atomic.{IsAtomic}
use honey_mind.Config.File.{ConfigFiles, LoadError, from_path}
use honey_mind.Supervision.Startup.{Prepared, Host, StartError, start_up}
use honey_mind.Server.Admission.{Semaphore}
use honey_mind.Supervision.Flushed.{run_until-flushes}
use honey_mind.Logger.Sink.Lock.{LockFile}
use honey_mind.Logger.Spawn.{NewChannel, Opening}
use honey_mind.Logger.Sink.{FileSystem}
use honey_mind.Logger.Account.{Spawned}
use honey_mind.Logger.Events.{accepted}
use honey_mind.Server.Workers.{ServerError, completed}
use honey_mind.Base.{
  is_ok, ◌≡◌, true, Option, none, some, arith, option_map, Result, ok, err, refl, Bool, ◌&&◌, Bytes,
  ℕ, sym, ◌∙◌,
}
use honey_mind.Config.Schema.{Config}
use honey_mind.Logger.{Channel, Logging}
use honey_mind.Logger.Events as Events
use honey_mind.Server.Binding.{Network, BoundServer}
use honey_mind.Server.Loop.{Fault}
use honey_mind.Server.Run.{Ends, run_bound}
use honey_mind.Server.Workers.Verdict.{is_fine}
use honey_mind.Supervision.{Process, spawned, signalled, RunError}
use honey_mind.Supervision.Run.{
  Life, Waited, ServerTask, by_signal, by_server, by_logger, task_lost, task_returned, task_end,
  server_ends, log_ends, ending, wait_for_signal, or_server_failed, write_failed, Ran, after_load,
  after_start, live_until, run, TaskError, or_run_failed,
}
use honey_mind.Supervision.Shutdown.{at_server, at_logger, all_well, in_time, run_until_lem}

module _ {N Q : Type 0} (channel : Channel Q) (net : Network N) (n : N) (cfg : Config)
    (bound : BoundServer) (logging : Logging Q) (l : Life) where
  -- The process when its log is waited for.
  abbrev pub at_log : Process
  at_log =
      at_logger (server_ends channel net n cfg bound logging l)
        (log_ends channel net n cfg bound logging l)
        (ending channel net n cfg bound logging l l.waited) (spawned l.shared)

  -- The process when its server is waited for, and the end of the server, then or before.
  abbrev pub last_task : Waited → Option ServerTask
  last_task (by_signal installed signal) = l.server_task (
      at_server (server_ends channel net n cfg bound logging l)
        (log_ends channel net n cfg bound logging l) (signalled (wait_for_signal installed signal))
        (spawned l.shared))
  last_task (by_server task) = some task
  last_task (by_logger e) = none

  -- The server returned without an error, in time where it was asked to.
  abbrev pub Served : Waited → Type 0
  Served w =
      (e : Ends Fault) × (last_task w ≡ some (task_returned e))
      × (is_ok (run_bound net l.info n cfg bound l.shared e).1 ≡ true)

  returned-is_ok :
      (r : Result (Unit {0}) (ServerError Fault))
      → is_fine (completed (or_server_failed r)) ≡ true
      → is_ok r ≡ true
  returned-is_ok (ok u) f = refl
  returned-is_ok (err e) f = f

  task-Served :
      (w : Waited) (o : Option ServerTask)
      → last_task w ≡ o
      → in_time (option_map (task_end channel net n cfg bound logging l) o) ≡ true
      → Served w
  task-Served w none h f = absurd (ground arith)
  task-Served w (some task_lost) h f = absurd (ground arith)
  task-Served w (some (task_returned e)) h f =
      (e, h, returned-is_ok (run_bound net l.info n cfg bound l.shared e).1 f)

  -- The signal, if it was one, was received.
  abbrev pub Heard : Waited → Type 0
  Heard (by_signal installed signal) = is_ok (wait_for_signal installed signal) ≡ true
  Heard (by_server task) = Unit {0}
  Heard (by_logger e) = ⊥

  and_parts : (a b c : Bool) → (a && b && c) ≡ true → (a ≡ true) × (b ≡ true)
  and_parts a b c h = ground arith

  and_first : (a b : Bool) → (a && b) ≡ true → a ≡ true
  and_first a b h = ground arith

  well-Served :
      (w : Waited)
      → all_well
          (server_ends channel net n cfg bound logging l)
          (log_ends channel net n cfg bound logging l)
          (ending channel net n cfg bound logging l w)
          (spawned l.shared)
        ≡ true
      → Served w × Heard w
  well-Served (by_signal installed signal) f =
      let (heard, served) = and_parts _ _ _ f in
      (task-Served (by_signal installed signal) _ refl served, heard)
  well-Served (by_server task) f =
      (task-Served (by_server task) (some task) refl (and_first _ _ f), tt)
  well-Served (by_logger e) f = cc

  -- The server returned, the signal was received, and the log has written whatever it accepted.
  abbrev pub Ended : Type 0
  Ended =
      Served l.waited
      × Heard l.waited
      × ((Events.run channel logging (l.history at_log)).output
          ≡ accepted channel logging (l.history at_log))

  live_until-Ended :
      (buffer_size : ℕ)
      → Spawned channel buffer_size logging
      → is_ok (live_until channel net n cfg bound logging l).1 ≡ true
      → Ended
  live_until-Ended buffer_size f h =
      let over =
        run_until_lem (server_ends channel net n cfg bound logging l)
          (log_ends channel net n cfg bound logging l)
          (ending channel net n cfg bound logging l l.waited) l.shared in
      let (served, heard) = well-Served l.waited (sym over.1.2 ∙ h) in
      (
        served,
        heard,
        run_until-flushes channel buffer_size logging f write_failed
            (server_ends channel net n cfg bound logging l) l.history l.has_senders
            (ending channel net n cfg bound logging l l.waited) l.shared h,
      )

is_ok-run :
    (r : Result (Unit {0}) (RunError TaskError)) → is_ok (or_run_failed r) ≡ true → is_ok r ≡ true
is_ok-run (ok u) h = refl
is_ok-run (err e) h = h

module _ {N Q F S : Type 0} {channel : Channel Q} {fs : FileSystem F} (net : Network N)
    (queues : NewChannel channel) (lock : LockFile fs) (sem : Semaphore S)
    (life : Config → Prepared Q F S → Life) where
  -- The process has started from the configuration, on what it bound and prepared, and has ended.
  abbrev pub HasRun : Host N F → Config → Ran N F → Type 0
  HasRun h0 cfg r =
      (p : Prepared Q F S) × IsAtomic net h0.sockets cfg (r.host.sockets, ok p.bound)
      × Ended channel net r.host.sockets cfg p.bound p.writer.logging (life cfg p)

  started-HasRun :
      (h0 : Host N F) (cfg : Config) (s : Host N F × Result (Prepared Q F S) StartError)
      → IsClean net queues lock sem cfg h0 s
      → is_ok (after_start net queues lock sem life cfg s).outcome ≡ true
      → HasRun h0 cfg (after_start net queues lock sem life cfg s)
  started-HasRun h0 cfg (h, err e) c s = absurd (ground arith)
  started-HasRun h0 cfg (h, ok p) c s = (
    p,
    c.1,
    live_until-Ended channel net h.sockets cfg p.bound p.writer.logging (life cfg p)
        cfg.logging.buffer_size c.2
        (is_ok-run (live_until channel net h.sockets cfg p.bound p.writer.logging (life cfg p)).1
          s),
  )

  module _ (files : ConfigFiles) (toml_from_str : Bytes → Option Config) (metrics_made : Bool)
      (opening : Opening) where
    loaded-HasRun :
        (h0 : Host N F) (r : Result Config LoadError)
        → is_ok (after_load net queues lock sem life metrics_made opening h0 r).outcome ≡ true
        → (cfg : Config) × (r ≡ ok cfg)
          × HasRun h0 cfg (after_load net queues lock sem life metrics_made opening h0 r)
    loaded-HasRun h0 (err e) h = absurd (ground arith)
    loaded-HasRun h0 (ok cfg) h = (
      cfg,
      refl,
      started-HasRun h0 cfg (start_up net queues lock sem cfg metrics_made opening h0)
          (start_up-IsClean net queues lock sem cfg metrics_made opening h0) h,
    )

    -- A `run` that ends with success has read a sound configuration, and has run on it.
    pub run-succeeds :
        (h0 : Host N F) (path : Bytes)
        → is_ok
            (run net queues lock sem life files toml_from_str metrics_made opening h0 path).outcome
          ≡ true
        → (cfg : Config) × (from_path files toml_from_str path ≡ ok cfg)
          × IsSound files toml_from_str cfg
          × HasRun h0 cfg
              (run net queues lock sem life files toml_from_str metrics_made opening h0 path)
    unfolding run
    run-succeeds h0 path h =
        let (cfg, loaded, has_run) = loaded-HasRun h0 (from_path files toml_from_str path) h in
        (cfg, loaded, from_path-IsSound files toml_from_str path cfg loaded, has_run)
