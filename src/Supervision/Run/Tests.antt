-- ===== src/Supervision/Run/Tests.antt =====
-- A sensor that starts, logs a session and ends by SIGTERM.
use honey_mind.Logger.Spawn.{opens_in_time}
use honey_mind.Base.{if◌then◌else◌, ok, ℕ, ◌≡◌, refl, Bool, true, Option, some, List, [], ◌∷◌}
use honey_mind.Config.File.Tests.{one_file, sensor_toml, config_path, sensor_loads}
use honey_mind.Config.Schema.{Config}
use honey_mind.Logger.Events.{Event, logs, writes, step}
use honey_mind.Logger.Events as Events
use honey_mind.Logger.Sink.Lock.Tests.{LockedDisk, disk_lock}
use honey_mind.Logger.Spawn.Tests.{new_pipe}
use honey_mind.Logger.Tests.{Pipe, closed_session}
use honey_mind.Logger.{log, write_next}
use honey_mind.Server.Admission.Tests.{counting}
use honey_mind.Server.Binding.Tests.{sockets}
use honey_mind.Server.Run.{run_bound, loop_end}
use honey_mind.Server.Run.Tests.{good_ends, serving}
use honey_mind.Server.Workers.{supervise_workers}
use honey_mind.Supervision.{Process, run_until}
use honey_mind.Supervision.Flushed.{writer_end}
use honey_mind.Supervision.Run.{
  Life, ServerTask, by_signal, terminate, task_returned, run, after_start,
}
use honey_mind.Supervision.Startup.{Prepared}
use honey_mind.Supervision.Startup.Tests.{new_host, sensor_starts, sensor_host, prepared}
use honey_mind.Config.Validate.Tests.{sensor_config}

abbrev returns : Process → Option ServerTask
returns p = some (task_returned good_ends)

abbrev sessions : Process → List Event
sessions p = if p.holds_state then [] else logs closed_session ∷ writes true ∷ []

abbrev senders : Process → Bool
senders p = p.holds_state

abbrev pub terminated : Config → Prepared Pipe LockedDisk ℕ → Life
terminated cfg p = record {
  info = true;
  waited = by_signal true (terminate true);
  shared = serving;
  server_task = returns;
  history = sessions;
  has_senders = senders;
}

ends_well :
    (after_start
      (sockets 0)
      new_pipe
      disk_lock
      counting
      terminated
      sensor_config
      (sensor_host, ok prepared)).outcome
    ≡ ok tt
unfolding run_until writer_end Events.run log step write_next run_bound supervise_workers loop_end
ends_well = refl

pub sensor_runs :
    (run
      (sockets 0)
      new_pipe
      disk_lock
      counting
      terminated
      one_file
      sensor_toml
      true
      opens_in_time
      new_host
      config_path).outcome
    ≡ ok tt
unfolding run
sensor_runs = rw (sensor_loads, sensor_starts) ends_well
