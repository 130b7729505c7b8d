-- ===== src/Logger/Sink/Lock.antt =====
-- src/logger.rs: `acquire_lock` and `FileSink::open`. The operations on the lock file are a parameter
-- beside the file system. Of the log that an opening which fails may have created, nothing is kept.
pub mod Exclusive
pub mod Tests
use honey_mind.Base.{
  ltb, if◌then◌else◌, Result, ok, err, ℕ, ◌≡◌, Bool, true, false, ◌&&◌, Option, none, some,
}
use honey_mind.Logger.Sink.{
  FileSystem, FileSink, LogPath, Found, missing, regular, irregular, unreadable, SinkError,
  open_log,
}

-- The lock file of a log; `locked` tells whether some open file holds it. A lock that is taken was
-- free, and is free again when its file is closed.
pub record LockFile {F : Type 0} (fs : FileSystem F) : Type 0 where
  pub locked : F → Bool
  pub symlink_metadata : F → Found
  pub open_lock : F → Option F
  pub is_file : F → Option Bool
  pub try_lock : F → Option F
  pub set_permissions : F → Option F
  pub close : F → F
  pub open_lock_some :
      (f f' : F)
      → open_lock f ≡ some f'
      → (locked f' ≡ locked f) × ((p : LogPath) → fs.content f' p ≡ fs.content f p)
  pub try_lock_some :
      (f f' : F)
      → try_lock f ≡ some f'
      → (locked f ≡ false) × (locked f' ≡ true) × ((p : LogPath) → fs.content f' p ≡ fs.content f p)
  pub set_permissions_some :
      (f f' : F)
      → set_permissions f ≡ some f'
      → (locked f' ≡ locked f) × ((p : LogPath) → fs.content f' p ≡ fs.content f p)
  pub close_locked : (f : F) → locked (close f) ≡ false
  pub open_append_locked :
      (f f' : F) (p : LogPath) → fs.open_append f p ≡ some f' → locked f' ≡ locked f

pub data OpenError : Type 0 where
  no_rotation irregular_lock lock_failed lock_held : OpenError
  log_failed : SinkError → OpenError

module _ {F : Type 0} {fs : FileSystem F} (lock : LockFile fs) where
  abbrev pub after_permissions : F → Option F → F × Result (Unit {0}) OpenError
  after_permissions f none = (lock.close f, err lock_failed)
  after_permissions f (some f') = (f', ok tt)

  abbrev pub after_try : F → Option F → F × Result (Unit {0}) OpenError
  after_try f none = (f, err lock_held)
  after_try f (some f') = after_permissions f' (lock.set_permissions f')

  abbrev pub after_kind : F → Option Bool → F × Result (Unit {0}) OpenError
  after_kind f none = (f, err lock_failed)
  after_kind f (some false) = (f, err irregular_lock)
  after_kind f (some true) = after_try f (lock.try_lock f)

  abbrev pub after_open : F → Option F → F × Result (Unit {0}) OpenError
  after_open f none = (f, err lock_failed)
  after_open f (some f') = after_kind f' (lock.is_file f')

  abbrev pub after_metadata : F → Found → F × Result (Unit {0}) OpenError
  after_metadata f missing = after_open f (lock.open_lock f)
  after_metadata f regular = after_open f (lock.open_lock f)
  after_metadata f irregular = (f, err irregular_lock)
  after_metadata f unreadable = (f, err lock_failed)

  unfoldable pub acquire_lock : F → F × Result (Unit {0}) OpenError
  acquire_lock f = after_metadata f (lock.symlink_metadata f)

  module _ (max_bytes max_files : ℕ) where
    -- An opening that fails closes the lock.
    abbrev pub after_log : F → Result (F × ℕ) SinkError → F × Result FileSink OpenError
    after_log f (err e) = (lock.close f, err (log_failed e))
    after_log f (ok (f', size)) =
        (f', ok (record { size = size; max_bytes = max_bytes; max_files = max_files }))

    abbrev pub after_lock : F × Result (Unit {0}) OpenError → F × Result FileSink OpenError
    after_lock (f, err e) = (f, err e)
    after_lock (f, ok u) = after_log f (open_log fs f)

    -- `FileSink::open`
    unfoldable pub open_sink : F → F × Result FileSink OpenError
    open_sink f =
        if ltb 0 max_bytes && ltb 0 max_files
        then after_lock (acquire_lock f)
        else (f, err no_rotation)
