-- ===== src/Logger/Sink/Lock/Exclusive.antt =====
-- A sink that is open has the lock.
use honey_mind.Logger.Sink.Rotation.{opened-ok}
use honey_mind.Logger.Sink.Shift.{or_io_ok}
use honey_mind.Logger.Sink.{
  FileSystem, FileSink, LogPath, open_log, Found, active, regular_exists, missing, or_io, regular,
  irregular, unreadable, opened, SinkError, rotated,
}
use honey_mind.Base.{
  Result, ok, err, ◌≡◌, refl, sym, ◌∙◌, Bool, true, false, Option, none, some, unwrap_or, length,
  is_empty, Bytes, ends_with, bind-ok, ℕ, ◌≤◌, ◌||◌, [], ◌∷◌, arith, ltb, if◌then◌else◌, ap, ◌&&◌,
}
use honey_mind.Logger.Sink.Lock.{
  LockFile, OpenError, acquire_lock, after_kind, after_open, after_permissions, after_try,
  after_metadata, after_lock, open_sink, after_log, no_rotation,
}

module _ {F : Type 0} {fs : FileSystem F} (lock : LockFile fs) where
  abbrev pub SameLogs : F → F → Type 0
  SameLogs f f' = (p : LogPath) → fs.content f' p ≡ fs.content f p

  -- What locking does, from a state `f0` with these logs.
  abbrev pub IsLocked : F → F × Result (Unit {0}) OpenError → Type 0
  IsLocked f0 (f, err e) = lock.locked f ≡ lock.locked f0
  IsLocked f0 (f, ok u) = (lock.locked f0 ≡ false) × (lock.locked f ≡ true) × SameLogs f0 f

  after_permissions-IsLocked :
      (f0 f : F) (r : Option F)
      → lock.locked f0 ≡ false
      → lock.locked f ≡ true
      → SameLogs f0 f
      → lock.set_permissions f ≡ r
      → IsLocked f0 (after_permissions lock f r)
  after_permissions-IsLocked f0 f none free held same e = lock.close_locked f ∙ sym free
  after_permissions-IsLocked f0 f (some g) free held same e =
      let (kept, logs) = lock.set_permissions_some f g e in
      (free, kept ∙ held, λ p. logs p ∙ same p)

  after_try-IsLocked :
      (f0 f : F) (r : Option F)
      → lock.locked f ≡ lock.locked f0
      → SameLogs f0 f
      → lock.try_lock f ≡ r
      → IsLocked f0 (after_try lock f r)
  after_try-IsLocked f0 f none kept same e = kept
  after_try-IsLocked f0 f (some g) kept same e =
      let (free, held, logs) = lock.try_lock_some f g e in
      after_permissions-IsLocked f0 g (lock.set_permissions g) (sym kept ∙ free) held
        (λ p. logs p ∙ same p) refl

  after_kind-IsLocked :
      (f0 f : F) (r : Option Bool)
      → lock.locked f ≡ lock.locked f0
      → SameLogs f0 f
      → IsLocked f0 (after_kind lock f r)
  after_kind-IsLocked f0 f none kept same = kept
  after_kind-IsLocked f0 f (some false) kept same = kept
  after_kind-IsLocked f0 f (some true) kept same =
      after_try-IsLocked f0 f (lock.try_lock f) kept same refl

  after_open-IsLocked :
      (f : F) (r : Option F) → lock.open_lock f ≡ r → IsLocked f (after_open lock f r)
  after_open-IsLocked f none e = refl
  after_open-IsLocked f (some g) e =
      let (kept, logs) = lock.open_lock_some f g e in
      after_kind-IsLocked f g (lock.is_file g) kept logs

  pub acquire_lock-IsLocked : (f : F) → IsLocked f (acquire_lock lock f)
  unfolding acquire_lock
  acquire_lock-IsLocked f = found (lock.symlink_metadata f)
    where
      found : (r : Found) → IsLocked f (after_metadata lock f r)
      found missing = after_open-IsLocked f (lock.open_lock f) refl
      found regular = after_open-IsLocked f (lock.open_lock f) refl
      found irregular = refl
      found unreadable = refl

  -- The bytes of a log, none if there is no such file.
  abbrev pub log_bytes : F → LogPath → Bytes
  log_bytes f p = unwrap_or (fs.content f p) []

  abbrev pub IsComplete : Bytes → Type 0
  IsComplete bytes = (is_empty bytes || ends_with (b'\n' ∷ []) bytes) ≡ true

  opened-IsComplete :
      (f f' : F) (bytes : Bytes) (n : ℕ) → opened fs f bytes ≡ ok (f', n) → IsComplete bytes
  opened-IsComplete f f' bytes n h = ground (arith, h)

  open_append-log_bytes :
      (f g : F) → fs.open_append f active ≡ some g → (p : LogPath) → log_bytes g p ≡ log_bytes f p
  open_append-log_bytes f g e active = ap (λ o. unwrap_or o []) (fs.open_some f g active active e)
  open_append-log_bytes f g e (rotated k) =
      ap (λ o. unwrap_or o []) (fs.open_some f g active (rotated k) e)

  open_log-ok :
      (f f' : F) (n : ℕ)
      → open_log fs f ≡ ok (f', n)
      → (lock.locked f' ≡ lock.locked f)
        × (n ≡ length (log_bytes f' active))
        × ((p : LogPath) → log_bytes f' p ≡ log_bytes f p)
        × IsComplete (log_bytes f' active)
  unfolding open_log
  open_log-ok f f' n h =
      let (b, found, rest) = bind-ok (regular_exists fs f active) _ (f', n) h in
      let (g, open', last) = bind-ok (or_io (fs.open_append f active)) _ (f', n) rest in
      let made = or_io_ok (fs.open_append f active) g open' in
      let (same, size) = opened-ok fs g f' (log_bytes g active) n last in
      let whole = opened-IsComplete g f' (log_bytes g active) n last in
      (
        rw (← same) (lock.open_append_locked f g active made),
        rw (← same) (sym size),
        λ p. rw (← same) (open_append-log_bytes f g made p),
        rw (← same) whole,
      )

  -- What an opening does: one that fails leaves the lock as it was, and one that succeeds has taken it.
  abbrev pub IsOpened : ℕ → F → F × Result FileSink OpenError → Type 0
  IsOpened max_files f0 (f, err e) = lock.locked f ≡ lock.locked f0
  IsOpened max_files f0 (f, ok sink) =
      (lock.locked f0 ≡ false)
      × (lock.locked f ≡ true)
      × (sink.max_files ≡ max_files)
      × (1 ≤ max_files)
      × (sink.size ≡ length (log_bytes f active))
      × ((p : LogPath) → log_bytes f p ≡ log_bytes f0 p)
      × IsComplete (log_bytes f active)

  module _ (max_bytes max_files : ℕ) where
    after_log-IsOpened :
        (f0 f : F) (r : Result (F × ℕ) SinkError)
        → open_log fs f ≡ r
        → IsLocked f0 (f, ok tt)
        → 1 ≤ max_files
        → IsOpened max_files f0 (after_log lock max_bytes max_files f r)
    after_log-IsOpened f0 f (err e) h (free, held, same) m = lock.close_locked f ∙ sym free
    after_log-IsOpened f0 f (ok (g, n)) h (free, held, same) m =
        let (kept, size, logs, whole) = open_log-ok f g n h in
        (free, kept ∙ held, refl, m, size, λ p. logs p ∙ ap (λ o. unwrap_or o []) (same p), whole)

    after_lock-IsOpened :
        (f0 : F) (r : F × Result (Unit {0}) OpenError)
        → IsLocked f0 r
        → 1 ≤ max_files
        → IsOpened max_files f0 (after_lock lock max_bytes max_files r)
    after_lock-IsOpened f0 (f, err e) l m = l
    after_lock-IsOpened f0 (f, ok u) l m = after_log-IsOpened f0 f (open_log fs f) refl l m

    within_limits-IsOpened :
        (b : Bool) (f : F)
        → (ltb 0 max_bytes && ltb 0 max_files) ≡ b
        → IsOpened max_files f (
            if b
            then after_lock lock max_bytes max_files (acquire_lock lock f)
            else (f, err no_rotation))
    within_limits-IsOpened true f e =
        after_lock-IsOpened f (acquire_lock lock f) (acquire_lock-IsLocked f) (ground (arith, e))
    within_limits-IsOpened false f e = refl

    -- An opening of a sink that fails, for whatever reason, leaves the lock of its log held exactly if
    -- it was held before. One that succeeds found the lock free and holds it, keeps a rotated log, knows
    -- the size of the active log, has changed the content of no log, and appends behind a line that is
    -- complete.
    pub open_sink-IsOpened : (f : F) → IsOpened max_files f (open_sink lock max_bytes max_files f)
    unfolding open_sink
    open_sink-IsOpened f = within_limits-IsOpened (ltb 0 max_bytes && ltb 0 max_files) f refl
