-- ===== src/Supervision/Startup/Tests.antt =====
-- A start on a host where the port of one endpoint is taken.
use honey_mind.Logger.Spawn.{opens_in_time}
use honey_mind.Logger.Tests.{Pipe}
use honey_mind.Base.{true, ok, ℕ, ◌≡◌, refl}
use honey_mind.Config.Validate.Tests.{two_decoys, sensor_config}
use honey_mind.Logger.Sink.Lock.Tests.{LockedDisk, disk_lock, free_disk}
use honey_mind.Logger.Spawn.Tests.{new_pipe, old_disk, sensor_writer-spawn, sensor_writer}
use honey_mind.Server.Admission.Tests.{counting, sensor_server-new, idle_server}
use honey_mind.Server.Binding.Tests.{
  Sockets, sockets, no_sockets, one_more, sensor_server-bind, sensor_server,
}
use honey_mind.Supervision.Startup.{Host, start_up, Prepared}
use honey_mind.Supervision.Startup.Clean.{IsClean, start_up-IsClean}

abbrev pub new_host : Host Sockets LockedDisk
new_host = record { sockets = no_sockets; files = free_disk }

start_up-IsClean_example :
    IsClean
      (sockets 8080)
      new_pipe
      disk_lock
      counting
      two_decoys
      new_host
      (start_up (sockets 8080) new_pipe disk_lock counting two_decoys true opens_in_time new_host)
start_up-IsClean_example =
    start_up-IsClean (sockets 8080) new_pipe disk_lock counting two_decoys true opens_in_time
      new_host

-- A start that succeeds.
abbrev pub sensor_host : Host Sockets LockedDisk
sensor_host = record { sockets = one_more (one_more no_sockets); files = old_disk }

abbrev pub prepared : Prepared Pipe LockedDisk ℕ
prepared = record { bound = sensor_server; writer = sensor_writer; state = idle_server }

pub sensor_starts :
    start_up (sockets 0) new_pipe disk_lock counting sensor_config true opens_in_time new_host
    ≡ (sensor_host, ok prepared)
unfolding start_up
sensor_starts = rw (sensor_server-bind, sensor_writer-spawn, sensor_server-new) refl
