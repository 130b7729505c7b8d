-- ===== src/Logger/Spawn/Tests.antt =====
-- A log that is spawned over an old one, and writes a record.
use honey_mind.Logger.Sink.Lock.{open_sink, acquire_lock}
use honey_mind.Logger.Sink.Tests.{put, two_logs}
use honey_mind.Session.State.{SessionRecord}
use honey_mind.Base.{Option, some, ok, refl, true, [], ◌∷◌, List, codes, ◌≡◌, Bytes, ◌*◌, false}
use honey_mind.Config.Schema.{default_logging}
use honey_mind.Config.Validate.Tests.{sensor_config}
use honey_mind.Logger.Tests.{Pipe, pipe, closed_session}
use honey_mind.Logger.Sink.{FileSink, active, open_log}
use honey_mind.Logger.Sink.Lock.Tests.{LockedDisk, disk_lock, free_disk}
use honey_mind.Logger.Spawn.{NewChannel, started_writer, spawn, opens_in_time}
use honey_mind.Logger.Spawn.Started.{LogsAll, spawn-LogsAll}
use honey_mind.Logger.Writer.{Writer, Step, enqueue, round}
use honey_mind.Metrics.{new_metrics}

abbrev pub new_pipe : NewChannel pipe
new_pipe = record {
  new_channel = λ n. record { records = []; most = n; shut = false };
  new_content = λ n. refl;
  new_capacity = λ n. refl;
  new_open = λ n. refl;
}

abbrev to_json : SessionRecord → Option Bytes
to_json r = some (codes "{}")

abbrev opened_sink : FileSink
opened_sink = record { size = 4; max_bytes = 10 * 1024 * 1024; max_files = 3 }

abbrev pub old_disk : LockedDisk
old_disk = record { held = true; logs = put active (some (codes "abc\n")) two_logs }

abbrev first_writer : Writer Pipe LockedDisk
first_writer =
    started_writer new_pipe disk_lock default_logging new_metrics old_disk (some opened_sink)

spawns :
    spawn new_pipe disk_lock default_logging new_metrics opens_in_time free_disk
    ≡ (old_disk, ok first_writer)
unfolding spawn open_sink acquire_lock open_log
spawns = refl

abbrev steps : List Step
steps = enqueue closed_session ∷ round true true ∷ []

spawn-LogsAll_example :
    LogsAll new_pipe disk_lock to_json default_logging free_disk steps first_writer
spawn-LogsAll_example =
    spawn-LogsAll new_pipe disk_lock to_json default_logging new_metrics opens_in_time free_disk
      old_disk first_writer 2 refl refl refl spawns steps

abbrev pub sensor_writer : Writer Pipe LockedDisk
sensor_writer =
    started_writer new_pipe disk_lock sensor_config.logging new_metrics old_disk (some opened_sink)

pub sensor_writer-spawn :
    spawn new_pipe disk_lock sensor_config.logging new_metrics opens_in_time free_disk
    ≡ (old_disk, ok sensor_writer)
unfolding spawn open_sink acquire_lock open_log
sensor_writer-spawn = refl
