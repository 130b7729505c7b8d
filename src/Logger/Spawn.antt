-- ===== src/Logger/Spawn.antt =====
-- src/logger.rs: `Logger::spawn`, which opens the sink and makes the queue. A new channel is a
-- parameter. Of the log that an opening which exceeds its time may have created, nothing is kept.
pub mod Started
pub mod Tests
use honey_mind.Base.{
  ltb, if◌then◌else◌, Result, ok, err, ℕ, ◌≡◌, Bool, false, Option, none, some, [], Bytes, true,
  ◌&&◌,
}
use honey_mind.Config.Schema.{LoggingConfig, file_path, writes_stdout}
use honey_mind.Logger.{Channel}
use honey_mind.Logger.Sink.{FileSystem, FileSink}
use honey_mind.Logger.Sink.Lock.{LockFile, OpenError, open_sink, acquire_lock, no_rotation}
use honey_mind.Logger.Writer.{Writer}
use honey_mind.Metrics.{Metrics}

pub data SpawnError : Type 0 where
  no_buffer opening_timed_out : SpawnError
  cannot_open : OpenError → SpawnError

-- Whether the opening of the sink ends in time; if not, what it waits for when its time is over. The
-- blocking task that locks cannot be cancelled: it may still run then, or, where the runtime ends first,
-- may not.
pub data Opening : Type 0 where
  opens_in_time : Opening
  lock_expires : Bool → Opening
  log_expires : Opening

-- `mpsc::channel`
pub record NewChannel {Q : Type 0} (channel : Channel Q) : Type 0 where
  pub new_channel : ℕ → Q
  pub new_content : (n : ℕ) → channel.content (new_channel n) ≡ []
  pub new_capacity : (n : ℕ) → channel.capacity (new_channel n) ≡ n
  pub new_open : (n : ℕ) → channel.is_closed (new_channel n) ≡ false

module _ {Q F : Type 0} {channel : Channel Q} {fs : FileSystem F} (queues : NewChannel channel)
    (lock : LockFile fs) where
  -- What `run_writer` starts with.
  abbrev pub started_writer : LoggingConfig → Metrics → F → Option FileSink → Writer Q F
  started_writer c m f sink = record {
    logging = record {
      queue = queues.new_channel c.buffer_size;
      metrics = m;
      output = [];
      failed = false;
    };
    outputs = record { files = f; file = sink; stdout = if writes_stdout c then some [] else none };
  }

  abbrev pub after_opening :
      LoggingConfig → Metrics → F × Result FileSink OpenError → F × Result (Writer Q F) SpawnError
  after_opening c m (f, err e) = (f, err (cannot_open e))
  after_opening c m (f, ok sink) = (f, ok (started_writer c m f (some sink)))

  -- The drop of a lock that was acquired for nobody.
  abbrev pub drop_lock : F × Result (Unit {0}) OpenError → F
  drop_lock (f, err e) = f
  drop_lock (f, ok u) = lock.close f

  -- The drop of the future of `FileSink::open` while it opens the log.
  abbrev pub drop_opening : F × Result (Unit {0}) OpenError → F × Result (Writer Q F) SpawnError
  drop_opening (f, err e) = (f, err (cannot_open e))
  drop_opening (f, ok u) = (lock.close f, err opening_timed_out)

  -- `FileSink::open` that exceeds its time; where the lock is pending, the files are those that the task
  -- leaves which is abandoned, once it has ended.
  abbrev pub expire_opening : Opening → F → F × Result (Writer Q F) SpawnError
  expire_opening (lock_expires true) f = (drop_lock (acquire_lock lock f), err opening_timed_out)
  expire_opening (lock_expires false) f = (f, err opening_timed_out)
  expire_opening _ f = drop_opening (acquire_lock lock f)

  abbrev pub open_late : LoggingConfig → Opening → F → F × Result (Writer Q F) SpawnError
  open_late c opening f =
      if ltb 0 c.max_file_bytes && ltb 0 c.max_files
      then expire_opening opening f
      else (f, err (cannot_open no_rotation))

  abbrev pub open_if :
      LoggingConfig → Metrics → Opening → F → Option Bytes → F × Result (Writer Q F) SpawnError
  open_if c m opening f none = (f, ok (started_writer c m f none))
  open_if c m opens_in_time f (some path) =
      after_opening c m (open_sink lock c.max_file_bytes c.max_files f)
  open_if c m opening f (some path) = open_late c opening f

  unfoldable pub spawn : LoggingConfig → Metrics → Opening → F → F × Result (Writer Q F) SpawnError
  spawn c m opening f =
      if ltb 0 c.buffer_size then open_if c m opening f (file_path c) else (f, err no_buffer)
