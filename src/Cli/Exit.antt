-- ===== src/Cli/Exit.antt =====
-- What an exit of the process with success stands for.
use honey_mind.Base.{
  if◌then◌else◌, Bytes, is_ok, Result, ok, err, ◌≡◌, refl, Bool, true, none, arith,
}
use honey_mind.Cli.{Program, or_run, dispatch, main, success, exit_code, failure}
use honey_mind.Config.File.{from_path}
use honey_mind.Config.File.Loaded.{IsSound}
use honey_mind.Config.Schema.{Config}
use honey_mind.Logger.{Channel}
use honey_mind.Logger.Sink.{FileSystem}
use honey_mind.Logger.Sink.Lock.{LockFile}
use honey_mind.Logger.Spawn.{NewChannel, Opening}
use honey_mind.Server.Admission.{Semaphore}
use honey_mind.Server.Binding.{Network}
use honey_mind.Supervision.Run.{Life, ProcessError, run}
use honey_mind.Supervision.Run.Success.{HasRun, run-succeeds}
use honey_mind.Supervision.Startup.{Host, Prepared}

module _ {N Q F S : Type 0} {channel : Channel Q} {fs : FileSystem F} (net : Network N)
    (queues : NewChannel channel) (lock : LockFile fs) (sem : Semaphore S)
    (life : Config → Prepared Q F S → Life) (metrics_made : Bool) (opening : Opening)
    (h0 : Host N F) (program : Program ProcessError) where
  -- The program that runs the sensor on this host.
  abbrev pub sensor : Program ProcessError
  sensor = record program {
    run = λ path.
        (run net queues lock sem life program.files program.toml_from_str metrics_made opening h0
          path).outcome;
  }

  exit-is_ok :
      (runtime_made : Bool) (r : Result (Unit {0}) ProcessError)
      → (if runtime_made then exit_code (or_run sensor r) else failure) ≡ success
      → is_ok r ≡ true
  exit-is_ok runtime_made (ok u) h = refl
  exit-is_ok runtime_made (err e) h = ground arith

  -- If the program exits with success where it is given no command, then it has read a configuration
  -- whose limits and endpoints are those that `validate` accepts; it has bound a listener for each
  -- endpoint of it, and one for the management exactly if that is enabled; if a signal ended its wait,
  -- it came through a handler that works, and otherwise the end of the server did; the server returned
  -- without an error, in time where it was asked to; and the log has written and flushed every
  -- record that a session could enqueue, in the order of the calls.
  pub main-success :
      (runtime_made : Bool) (path : Bytes)
      → main sensor runtime_made path none ≡ success
      → (cfg : Config) × (from_path program.files program.toml_from_str path ≡ ok cfg)
        × IsSound program.files program.toml_from_str cfg
        × HasRun net queues lock sem life h0 cfg (
            run net queues lock sem life program.files program.toml_from_str metrics_made opening h0
              path)
  unfolding main dispatch
  main-success runtime_made path h =
      run-succeeds net queues lock sem life program.files program.toml_from_str metrics_made opening
        h0 path (exit-is_ok runtime_made _ h)
