-- ===== src/Logger/Sink.antt =====
-- src/logger.rs: `FileSink`, which appends to the active log and rotates it. The file system is a
-- parameter. An error ends the writer, so that what it leaves behind is not kept.
mod Shift
pub mod Rotation
pub mod Bounds
pub mod Trail
pub mod Lock
pub mod Tests
use honey_mind.Base.{
  ◌==◌, ◌>>=◌, ◌>>◌, ltb, leb, if◌then◌else◌, unwrap_or, length, is_empty, Bytes, ends_with, ensure,
  Result, ok, err, ℕ, zero, suc, ◌+◌, ◌-◌, ◌≡◌, Bool, true, false, ◌||◌, Option, none, some, [],
  ◌∷◌, ◌++◌,
}
use honey_mind.Session.State.{sat_add}

-- The active log, and `path.k` for a positive `k`. Different suffixes are different names.
pub data LogPath : Type 0 where
  active : LogPath
  rotated : ℕ → LogPath

abbrev pub path_eq : LogPath → LogPath → Bool
path_eq active active = true
path_eq (rotated j) (rotated k) = j == k
path_eq _ _ = false

-- What `symlink_metadata` finds: nothing, a regular file, something else, or an error.
pub data Found : Type 0 where
  missing regular irregular unreadable : Found

pub data SinkError : Type 0 where
  record_too_long refused io_failed vanished incomplete_line : SinkError

-- The content of a path is that of the regular file there.
pub record FileSystem (F : Type 0) : Type 0 where
  pub content : F → LogPath → Option Bytes
  pub symlink_metadata : F → LogPath → Found
  pub remove_file : F → LogPath → Option F
  pub rename : F → LogPath → LogPath → Option F
  pub open_append : F → LogPath → Option F
  pub append : F → LogPath → Bytes → Option F
  pub missing_none : (f : F) (p : LogPath) → symlink_metadata f p ≡ missing → content f p ≡ none
  pub remove_some :
      (f f' : F) (p q : LogPath)
      → remove_file f p ≡ some f'
      → content f' q ≡ (if path_eq p q then none else content f q)
  pub rename_some :
      (f f' : F) (p q r : LogPath)
      → rename f p q ≡ some f'
      → content f' r
        ≡ (if path_eq q r then content f p else if path_eq p r then none else content f r)
  pub open_some :
      (f f' : F) (p q : LogPath)
      → open_append f p ≡ some f'
      → content f' q ≡ (if path_eq p q then some (unwrap_or (content f p) []) else content f q)
  pub append_some :
      (f f' : F) (p q : LogPath) (line : Bytes)
      → append f p line ≡ some f'
      → content f' q
        ≡ (if path_eq p q then some (unwrap_or (content f p) [] ++ line) else content f q)

pub record FileSink : Type 0 where
  pub size : ℕ
  pub max_bytes : ℕ
  pub max_files : ℕ

-- An operation that may fail.
abbrev pub or_io : {A : Type 0} → Option A → Result A SinkError
or_io none = err io_failed
or_io (some x) = ok x

module _ {F : Type 0} (fs : FileSystem F) where
  abbrev pub exists_of : Found → Result Bool SinkError
  exists_of missing = ok false
  exists_of regular = ok true
  exists_of irregular = err refused
  exists_of unreadable = err io_failed

  abbrev pub regular_exists : F → LogPath → Result Bool SinkError
  regular_exists f p = exists_of (fs.symlink_metadata f p)

  -- `open_log`: the size of the file, which does not end inside a line
  abbrev pub opened : F → Bytes → Result (F × ℕ) SinkError
  opened f bytes =
      if is_empty bytes || ends_with (b'\n' ∷ []) bytes
      then ok (f, length bytes)
      else err incomplete_line

  unfoldable pub open_log : F → Result (F × ℕ) SinkError
  open_log f = regular_exists f active >>= λ _.
      or_io (fs.open_append f active) >>= λ f'. opened f' (unwrap_or (fs.content f' active) [])

  abbrev pub if_exists : Bool → F → Option F → Result F SinkError
  if_exists b f o = if b then or_io o else ok f

  -- The oldest file goes.
  unfoldable pub remove_oldest : ℕ → F → Result F SinkError
  remove_oldest max_files f = regular_exists f (rotated max_files) >>= λ b.
      if_exists b f (fs.remove_file f (rotated max_files))

  -- One round of the loop.
  unfoldable pub move_up : ℕ → F → Result F SinkError
  move_up index f = regular_exists f (rotated index) >>= λ b.
      if_exists b f (fs.rename f (rotated index) (rotated (index + 1)))

  -- `for index in (1..max_files).rev()`, from its first index down
  unfoldable pub shift : ℕ → F → Result F SinkError
  shift zero f = ok f
  shift (suc index) f = move_up (suc index) f >>= shift index

  -- The active log becomes the first rotated one.
  unfoldable pub move_active : F → Result F SinkError
  move_active f =
      regular_exists f active >>= λ b. ensure b vanished >> or_io (fs.rename f active (rotated 1))

  -- Every write is flushed, so that the flush of the old file has nothing left to write.
  unfoldable pub rotate : FileSink → F → Result (F × FileSink) SinkError
  rotate s f = remove_oldest s.max_files f >>= λ f1. shift (s.max_files - 1) f1 >>= λ f2.
      move_active f2 >>= λ f3. open_log f3 >>= λ o. ok (o.0, record s { size = o.1 })

  abbrev pub write_line : Bytes → F × FileSink → Result (F × FileSink) SinkError
  write_line line (f, s) =
      or_io (fs.append f active line) >>= λ f'. ok (f', record s { size = s.size + length line })

  unfoldable pub write : FileSink → Bytes → F → Result (F × FileSink) SinkError
  write s line f =
      ensure (leb (length line) s.max_bytes) record_too_long
      >> ((if ltb s.max_bytes (sat_add s.size (length line)) then rotate s f else ok (f, s))
          >>= write_line line)
