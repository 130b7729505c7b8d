-- ===== src/Logger/Spawn/Started.antt =====
-- From `spawn` to the lines in the log.
use honey_mind.Logger.Writer.Lines.{run_all-HoldsLines}
use honey_mind.Logger.Writer.Refinement.{observed}
use honey_mind.Logger.Writer.Took.{with_bytes, lines_of}
use honey_mind.Session.Bounds.{Unless}
use honey_mind.Session.State.{SessionRecord}
use honey_mind.Logger.Sink.Trail.{Extends, trail}
use honey_mind.Logger.Sink.Lock.Exclusive.{
  IsOpened, log_bytes, open_sink-IsOpened, IsLocked, acquire_lock-IsLocked,
}
use honey_mind.Logger.Account.{Spawned}
use honey_mind.Logger.Events.{accounted, accepted}
use honey_mind.Logger.Writer.{Writer, Step, run_all}
use honey_mind.Metrics.{Metrics}
use honey_mind.Config.Schema.{LoggingConfig, file_path}
use honey_mind.Logger.Sink.Lock.{LockFile, OpenError, open_sink, acquire_lock, no_rotation}
use honey_mind.Logger.Sink.{FileSystem, FileSink, LogPath, active, rotated}
use honey_mind.Logger.{Channel}
use honey_mind.Base.{
  ok, ◌≡◌, ltb, is_some, Bytes, Result, err, refl, Bool, true, false, Option, none, some, arith,
  if◌then◌else◌, ℕ, zero, suc, ◌+◌, sym, ap, ◌∙◌, List, ◌++◌, subst, Bool-cases, is_ok, inl, inr,
  ◌&&◌,
}
use honey_mind.Logger.Spawn.{
  NewChannel, spawn, open_if, started_writer, after_opening, no_buffer, SpawnError, Opening,
  drop_lock, drop_opening, expire_opening, lock_expires, open_late, cannot_open, opens_in_time,
  log_expires,
}

unless_map : (A B : Type 0) (b : Bool) → (A → B) → Unless b A → Unless b B
unless_map A B true f u = tt
unless_map A B false f u = f u

abbrev value : {A E : Type 0} → A → Result A E → A
value a (ok b) = b
value a (err e) = a

module _ {Q F : Type 0} {channel : Channel Q} {fs : FileSystem F} (queues : NewChannel channel)
    (lock : LockFile fs) where
  started_writer-Spawned :
      (c : LoggingConfig) (m : Metrics) (f : F) (sink : Option FileSink)
      → accounted m ≡ 0
      → Spawned channel c.buffer_size (started_writer queues lock c m f sink).logging
  started_writer-Spawned c m f sink zero' = record {
    running = refl;
    opened = queues.new_open c.buffer_size;
    empty = queues.new_content c.buffer_size;
    capacity = queues.new_capacity c.buffer_size;
    nothing_written = refl;
    nothing_counted = zero';
  }

  -- A `spawn` that fails leaves the lock as it was, and one that succeeds has a new queue.
  abbrev pub IsSpawn : LoggingConfig → F → F × Result (Writer Q F) SpawnError → Type 0
  IsSpawn c f0 (f, err e) = lock.locked f ≡ lock.locked f0
  IsSpawn c f0 (f, ok w) = Spawned channel c.buffer_size w.logging

  after_opening-IsSpawn :
      (c : LoggingConfig) (m : Metrics) (f0 : F) (r : F × Result FileSink OpenError)
      → accounted m ≡ 0
      → IsOpened lock c.max_files f0 r
      → IsSpawn c f0 (after_opening queues lock c m r)
  after_opening-IsSpawn c m f0 (f, err e) z o = o
  after_opening-IsSpawn c m f0 (f, ok sink) z o = started_writer-Spawned c m f (some sink) z

  -- A lock that is not kept is free again.
  drop_lock-locked :
      (f0 : F) (r : F × Result (Unit {0}) OpenError)
      → IsLocked lock f0 r
      → lock.locked (drop_lock queues lock r) ≡ lock.locked f0
  drop_lock-locked f0 (f, err e) l = l
  drop_lock-locked f0 (f, ok u) (free, held, same) = lock.close_locked f ∙ sym free

  drop_opening-IsSpawn :
      (c : LoggingConfig) (f0 : F) (r : F × Result (Unit {0}) OpenError)
      → IsLocked lock f0 r
      → IsSpawn c f0 (drop_opening queues lock r)
  drop_opening-IsSpawn c f0 (f, err e) l = l
  drop_opening-IsSpawn c f0 (f, ok u) (free, held, same) = lock.close_locked f ∙ sym free

  expire_opening-IsSpawn :
      (c : LoggingConfig) (opening : Opening) (f0 : F)
      → IsSpawn c f0 (expire_opening queues lock opening f0)
  expire_opening-IsSpawn c (lock_expires true) f0 =
      drop_lock-locked f0 (acquire_lock lock f0) (acquire_lock-IsLocked lock f0)
  expire_opening-IsSpawn c (lock_expires false) f0 = refl
  expire_opening-IsSpawn c opens_in_time f0 =
      drop_opening-IsSpawn c f0 (acquire_lock lock f0) (acquire_lock-IsLocked lock f0)
  expire_opening-IsSpawn c log_expires f0 =
      drop_opening-IsSpawn c f0 (acquire_lock lock f0) (acquire_lock-IsLocked lock f0)

  late-IsSpawn :
      (c : LoggingConfig) (b : Bool) (opening : Opening) (f0 : F)
      → IsSpawn c f0
          (if b then expire_opening queues lock opening f0 else (f0, err (cannot_open no_rotation)))
  late-IsSpawn c true opening f0 = expire_opening-IsSpawn c opening f0
  late-IsSpawn c false opening f0 = refl

  open_if-IsSpawn :
      (c : LoggingConfig) (m : Metrics) (opening : Opening) (f0 : F) (path : Option Bytes)
      → accounted m ≡ 0
      → IsSpawn c f0 (open_if queues lock c m opening f0 path)
  open_if-IsSpawn c m opening f0 none z = started_writer-Spawned c m f0 none z
  open_if-IsSpawn c m opens_in_time f0 (some path) z =
      after_opening-IsSpawn c m f0 (open_sink lock c.max_file_bytes c.max_files f0) z
        (open_sink-IsOpened lock c.max_file_bytes c.max_files f0)
  open_if-IsSpawn c m (lock_expires b) f0 (some path) z = late-IsSpawn c _ (lock_expires b) f0
  open_if-IsSpawn c m log_expires f0 (some path) z = late-IsSpawn c _ log_expires f0

  guarded-IsSpawn :
      (c : LoggingConfig) (m : Metrics) (opening : Opening) (f0 : F) (b : Bool)
      → accounted m ≡ 0
      → IsSpawn c f0
          (if b then open_if queues lock c m opening f0 (file_path c) else (f0, err no_buffer))
  guarded-IsSpawn c m opening f0 true z = open_if-IsSpawn c m opening f0 (file_path c) z
  guarded-IsSpawn c m opening f0 false z = refl

  pub spawn-IsSpawn :
      (c : LoggingConfig) (m : Metrics) (opening : Opening) (f0 : F)
      → accounted m ≡ 0
      → IsSpawn c f0 (spawn queues lock c m opening f0)
  unfolding spawn
  spawn-IsSpawn c m opening f0 = guarded-IsSpawn c m opening f0 (ltb 0 c.buffer_size)

  -- What exceeds its time yields no writer.
  late_fails :
      (c : LoggingConfig) (opening : Opening) (f0 : F)
      → is_ok (open_late queues lock c opening f0).1 ≡ false
  late_fails c opening f0 = elim (Bool-cases (ltb 0 c.max_file_bytes && ltb 0 c.max_files)) [
    | inl e ↦ rw e (expire_fails opening)
    | inr e ↦ rw e refl
  ]
    where
      drop_fails :
          (r : F × Result (Unit {0}) OpenError) → is_ok (drop_opening queues lock r).1 ≡ false
      drop_fails (f, err e) = refl
      drop_fails (f, ok u) = refl

      expire_fails : (o : Opening) → is_ok (expire_opening queues lock o f0).1 ≡ false
      expire_fails (lock_expires true) = refl
      expire_fails (lock_expires false) = refl
      expire_fails opens_in_time = drop_fails (acquire_lock lock f0)
      expire_fails log_expires = drop_fails (acquire_lock lock f0)

  -- A spawned writer has its sink, on logs that are as they were.
  record Started (c : LoggingConfig) (m : Metrics) (f0 : F) (w : Writer Q F) : Type 0 where
    sink : FileSink
    files : F
    writer : w ≡ started_writer queues lock c m files (some sink)
    rotations : sink.max_files ≡ c.max_files
    untouched : (p : LogPath) → log_bytes lock files p ≡ log_bytes lock f0 p
    exclusive : (lock.locked f0 ≡ false) × (lock.locked files ≡ true)

  after_opening-Started :
      (c : LoggingConfig) (m : Metrics) (f0 f' : F) (w : Writer Q F)
      (r : F × Result FileSink OpenError)
      → IsOpened lock c.max_files f0 r
      → after_opening queues lock c m r ≡ (f', ok w)
      → Started c m f0 w
  after_opening-Started c m f0 f' w (f, err e) o h = absurd (ground arith)
  after_opening-Started c m f0 f' w (f, ok sink) (free, held, rotations, many, size, logs, whole)
        h =
      record {
        sink = sink;
        files = f;
        writer = sym (ap (λ r. value w r.1) h);
        rotations = rotations;
        untouched = logs;
        exclusive = (free, held);
      }

  contradicts :
      {r : F × Result (Writer Q F) SpawnError} {f' : F} {w : Writer Q F}
      → is_ok r.1 ≡ false
      → r ≡ (f', ok w)
      → ⊥
  contradicts fails h =
      let e : true ≡ false = sym (ap (λ r. is_ok r.1) h) ∙ fails in ground (arith, e)

  open_if-Started :
      (c : LoggingConfig) (m : Metrics) (opening : Opening) (f0 f' : F) (w : Writer Q F)
      (path : Option Bytes)
      → is_some path ≡ true
      → open_if queues lock c m opening f0 path ≡ (f', ok w)
      → Started c m f0 w
  open_if-Started c m opening f0 f' w none s h = absurd (ground arith)
  open_if-Started c m opens_in_time f0 f' w (some path) s h =
      after_opening-Started c m f0 f' w (open_sink lock c.max_file_bytes c.max_files f0)
        (open_sink-IsOpened lock c.max_file_bytes c.max_files f0) h
  open_if-Started c m (lock_expires b) f0 f' w (some path) s h =
      absurd (contradicts (late_fails c (lock_expires b) f0) h)
  open_if-Started c m log_expires f0 f' w (some path) s h =
      absurd (contradicts (late_fails c log_expires f0) h)

  guarded-Started :
      (c : LoggingConfig) (m : Metrics) (opening : Opening) (f0 f' : F) (w : Writer Q F) (b : Bool)
      → is_some (file_path c) ≡ true
      → (if b then open_if queues lock c m opening f0 (file_path c) else (f0, err no_buffer))
        ≡ (f', ok w)
      → Started c m f0 w
  guarded-Started c m opening f0 f' w true s h =
      open_if-Started c m opening f0 f' w (file_path c) s h
  guarded-Started c m opening f0 f' w false s h = absurd (ground arith)

  spawn-Started :
      (c : LoggingConfig) (m : Metrics) (opening : Opening) (f0 f' : F) (w : Writer Q F)
      → is_some (file_path c) ≡ true
      → spawn queues lock c m opening f0 ≡ (f', ok w)
      → Started c m f0 w
  unfolding spawn
  spawn-Started c m opening f0 f' w = guarded-Started c m opening f0 f' w (ltb 0 c.buffer_size)

  -- What the logs hold together, by what each holds.
  trail-cong :
      (age : ℕ) (f g : F)
      → ((p : LogPath) → log_bytes lock f p ≡ log_bytes lock g p)
      → trail fs age f ≡ trail fs age g
  unfolding trail
  trail-cong zero f g same = same active
  trail-cong (suc age) f g same =
      rw (same (rotated (age + 1)))
        (ap (λ t. log_bytes lock g (rotated (age + 1)) ++ t) (trail-cong age f g same))

  Extends-cong :
      (n : ℕ) (x : Bytes) (f g h : F)
      → ((p : LogPath) → log_bytes lock f p ≡ log_bytes lock g p)
      → Extends fs n x f h
      → Extends fs n x g h
  Extends-cong n x f g h same e = record {
    dropped = e.dropped;
    held = ap (λ t. t ++ x) (sym (trail-cong n f g same)) ∙ e.held;
  }

  -- What the log of a spawned writer is after some steps.
  abbrev pub LogsAll :
      (SessionRecord → Option Bytes) → LoggingConfig → F → List Step → Writer Q F → Type 0
  LogsAll to_vec c f0 steps w0 =
      let w = run_all channel fs to_vec w0 steps in
      Unless w.logging.failed (
        (w.outputs.stdout ≡ with_bytes w0.outputs.stdout (lines_of to_vec w.logging.output))
        × Extends fs c.max_files (lines_of to_vec w.logging.output) f0 w.outputs.files
        × (w.logging.output ++ channel.content w.logging.queue
            ≡ accepted channel w0.logging (observed channel fs to_vec w0 steps)))

  -- From a `spawn` that succeeds with a file for its output, on logs that it finds as an earlier run may
  -- have left them, and for every order of the calls of `log` and the rounds of the writer, whatever the
  -- outputs do: unless a write has failed, the standard output, if it is enabled, has got exactly the
  -- lines of the records that count as written; the logs, read from the oldest to the active one, hold
  -- what was there before `spawn`, and then these lines, less what rotations dropped in front; and the
  -- records written, followed by those that wait, are those that `log` accepted, each in the order of
  -- the calls. The counters of the log are 0 at first.
  pub spawn-LogsAll :
      (to_vec : SessionRecord → Option Bytes) (c : LoggingConfig) (m : Metrics) (opening : Opening)
      (f0 f' : F) (w0 : Writer Q F) (age : ℕ)
      → accounted m ≡ 0
      → is_some (file_path c) ≡ true
      → c.max_files ≡ suc age
      → spawn queues lock c m opening f0 ≡ (f', ok w0)
      → (steps : List Step) → LogsAll to_vec c f0 steps w0
  spawn-LogsAll to_vec c m opening f0 f' w0 age z s many h steps =
      let st = spawn-Started c m opening f0 f' w0 s h in
      let w1 = started_writer queues lock c m st.files (some st.sink) in
      let w = run_all channel fs to_vec w1 steps in
      let holds =
        run_all-HoldsLines channel fs to_vec c.buffer_size age w1 st.sink
          (started_writer-Spawned c m st.files (some st.sink) z) refl (st.rotations ∙ many) steps in
      subst (LogsAll to_vec c f0 steps) (sym st.writer) (
        unless_map _ _ w.logging.failed
          (λ p. (
            p.0.0,
            subst (λ n. Extends fs n (lines_of to_vec w.logging.output) f0 w.outputs.files)
                (sym many)
                (Extends-cong (suc age) (lines_of to_vec w.logging.output) st.files f0
                  w.outputs.files st.untouched p.0.1),
            p.1,
          ))
          holds)
