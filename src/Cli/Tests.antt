-- ===== src/Cli/Tests.antt =====
-- A process that ends well.
use honey_mind.Logger.Spawn.{opens_in_time}
use honey_mind.Config.Schema.{Config}
use honey_mind.Base.{ok, none, true, ◌≡◌, refl, []}
use honey_mind.Cli.{Program, dispatch}
use honey_mind.Config.File.{from_path}
use honey_mind.Cli.Exit.{sensor, main-success}
use honey_mind.Cli.{main, success}
use honey_mind.Config.File.Tests.{sensor_toml}
use honey_mind.Supervision.Run.{ProcessError, run}
use honey_mind.Supervision.Run.Success.{HasRun}
use honey_mind.Supervision.Run.Tests.{terminated, sensor_runs}
use honey_mind.Supervision.Startup.Tests.{new_host}
use honey_mind.Server.Binding.Tests.{sockets}
use honey_mind.Server.Admission.Tests.{counting}
use honey_mind.Logger.Spawn.Tests.{new_pipe}
use honey_mind.Logger.Sink.Lock.Tests.{disk_lock}
use honey_mind.Config.File.Tests.{one_file, config_path}
use honey_mind.Config.File.Loaded.{IsSound}
use honey_mind.Healthcheck.Tests.{local_peer}

-- The program around a sensor that starts, logs a session and ends by SIGTERM.
abbrev sensor_program : Program ProcessError
sensor_program = record {
  files = one_file;
  toml_from_str = sensor_toml;
  json_report = λ cfg. none;
  profile_text = λ p. [];
  prints = λ text. true;
  run = λ path. ok tt;
  peer = local_peer;
  in_time = true;
}

abbrev running_sensor : Program ProcessError
running_sensor =
    sensor (sockets 0) new_pipe disk_lock counting terminated true opens_in_time new_host
      sensor_program

exits_well : main running_sensor true config_path none ≡ success
unfolding main dispatch
exits_well = rw sensor_runs refl

main-success_example :
    (cfg : Config) × (from_path one_file sensor_toml config_path ≡ ok cfg)
    × IsSound one_file sensor_toml cfg
    × HasRun (sockets 0) new_pipe disk_lock counting terminated new_host cfg (
        run
          (sockets 0)
          new_pipe
          disk_lock
          counting
          terminated
          one_file
          sensor_toml
          true
          opens_in_time
          new_host
          config_path)
main-success_example =
    main-success (sockets 0) new_pipe disk_lock counting terminated true opens_in_time new_host
      sensor_program true config_path exits_well
