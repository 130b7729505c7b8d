-- ===== src/Logger/Sink/Tests.antt =====
-- A file system with the content of each path, in which every operation succeeds.
use honey_mind.Base.{
  Bytes, codes, Option, none, some, unwrap_or, ◌++◌, if◌then◌else◌, refl, ◌≡◌, ok, length, ◌≤◌, sym,
  ap, [], arith,
}
use honey_mind.Logger.Sink.{
  FileSystem, FileSink, LogPath, active, rotated, Found, missing, regular, path_eq, rotate, write,
  shift, move_up, move_active, remove_oldest, open_log,
}
use honey_mind.Logger.Sink.Rotation.{rotate-content}
use honey_mind.Logger.Sink.Bounds.{write-fits, active_bytes}

abbrev pub Disk : Type 0
Disk = LogPath → Option Bytes

abbrev pub found : Option Bytes → Found
found none = missing
found (some bytes) = regular

abbrev pub put : LogPath → Option Bytes → Disk → Disk
put p o f q = if path_eq p q then o else f q

pub found_missing : (o : Option Bytes) → found o ≡ missing → o ≡ none
found_missing none h = refl
found_missing (some b) h = absurd (ground arith)

pub at_some : (f g : Disk) (q : LogPath) → some f ≡ some g → g q ≡ f q
at_some f g q e = sym (ap (λ o. unwrap_or o f q) e)

abbrev pub disk : FileSystem Disk
disk = record {
  content = λ f p. f p;
  symlink_metadata = λ f p. found (f p);
  remove_file = λ f p. some (put p none f);
  rename = λ f p q. some (put q (f p) (put p none f));
  open_append = λ f p. some (put p (some (unwrap_or (f p) [])) f);
  append = λ f p line. some (put p (some (unwrap_or (f p) [] ++ line)) f);
  missing_none = λ f p e. found_missing (f p) e;
  remove_some = λ f f' p q e. at_some (put p none f) f' q e;
  rename_some = λ f f' p q r e. at_some (put q (f p) (put p none f)) f' r e;
  open_some = λ f f' p q e. at_some (put p (some (unwrap_or (f p) [])) f) f' q e;
  append_some = λ f f' p q line e. at_some (put p (some (unwrap_or (f p) [] ++ line)) f) f' q e;
}

abbrev pub sink : FileSink
sink = record { size = 4; max_bytes = 6; max_files = 2 }

-- Two logs, the active one of four bytes.
abbrev pub two_logs : Disk
two_logs = put active (some (codes "abc\n")) (put (rotated 1) (some (codes "old\n")) (λ p. none))

abbrev after_rotation : Disk
after_rotation = put active (some []) (
    put (rotated 1) (some (codes "abc\n"))
      (put active none (put (rotated 2) (some (codes "old\n")) (put (rotated 1) none two_logs))))

rotate-two_logs : rotate disk sink two_logs ≡ ok (after_rotation, record sink { size = 0 })
unfolding rotate shift move_up move_active remove_oldest open_log
rotate-two_logs = refl

rotate-content_example :
    (after_rotation (rotated 2) ≡ two_logs (rotated 1))
    × (after_rotation active ≡ some [])
    × (record sink { size = 0 } ≡ record sink { size = 0 })
rotate-content_example =
    rotate-content disk sink (record sink { size = 0 }) two_logs after_rotation 1 rotate-two_logs
      (omega arith)

abbrev after_write : Disk
after_write = put active (some (codes "xyz\n")) after_rotation

write-two_logs :
    write disk sink (codes "xyz\n") two_logs ≡ ok (after_write, record sink { size = 4 })
unfolding write rotate shift move_up move_active remove_oldest open_log
write-two_logs = refl

write-fits_example :
    (length (active_bytes disk after_write) ≤ 6) × (4 ≡ length (active_bytes disk after_write))
write-fits_example =
    write-fits disk sink (record sink { size = 4 }) (codes "xyz\n") two_logs after_write
      write-two_logs (omega arith) (omega arith) refl
