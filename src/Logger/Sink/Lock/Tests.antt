-- ===== src/Logger/Sink/Lock/Tests.antt =====
-- A disk with a lock that is free.
use honey_mind.Base.{
  Bool, true, false, Option, none, some, unwrap_or, [], ◌++◌, ap, sym, ◌≡◌, refl, arith,
}
use honey_mind.Logger.Sink.{FileSystem, LogPath, missing}
use honey_mind.Logger.Sink.Lock.{LockFile, open_sink}
use honey_mind.Logger.Sink.Lock.Exclusive.{IsOpened, open_sink-IsOpened}
use honey_mind.Logger.Sink.Tests.{Disk, put, found, found_missing, two_logs}

pub record LockedDisk : Type 0 where
  pub held : Bool
  pub logs : Disk

abbrev pub with_logs : LockedDisk → Disk → Option LockedDisk
with_logs f d = some (record f { logs = d })

pub logs_some : (f f' : LockedDisk) → some f ≡ some f' → (q : LogPath) → f'.logs q ≡ f.logs q
logs_some f f' e q = sym (ap (λ o. (unwrap_or o f).logs q) e)

pub held_some : (f f' : LockedDisk) → some f ≡ some f' → f'.held ≡ f.held
held_some f f' e = sym (ap (λ o. (unwrap_or o f).held) e)

abbrev pub locked_disk : FileSystem LockedDisk
locked_disk = record {
  content = λ f p. f.logs p;
  symlink_metadata = λ f p. found (f.logs p);
  remove_file = λ f p. with_logs f (put p none f.logs);
  rename = λ f p q. with_logs f (put q (f.logs p) (put p none f.logs));
  open_append = λ f p. with_logs f (put p (some (unwrap_or (f.logs p) [])) f.logs);
  append = λ f p line. with_logs f (put p (some (unwrap_or (f.logs p) [] ++ line)) f.logs);
  missing_none = λ f p e. found_missing (f.logs p) e;
  remove_some = λ f f' p q e. logs_some (record f { logs = put p none f.logs }) f' e q;
  rename_some =
      λ f f' p q r e. logs_some (record f { logs = put q (f.logs p) (put p none f.logs) }) f' e r;
  open_some = λ f f' p q e.
      logs_some (record f { logs = put p (some (unwrap_or (f.logs p) [])) f.logs }) f' e q;
  append_some = λ f f' p q line e.
      logs_some (record f { logs = put p (some (unwrap_or (f.logs p) [] ++ line)) f.logs }) f' e q;
}

abbrev pub take_lock : Bool → LockedDisk → Option LockedDisk
take_lock true f = none
take_lock false f = some (record f { held = true })

pub take_lock_lem :
    (b : Bool) (f f' : LockedDisk)
    → take_lock b f ≡ some f'
    → (b ≡ false) × (f'.held ≡ true) × ((p : LogPath) → f'.logs p ≡ f.logs p)
take_lock_lem true f f' e = absurd (ground arith)
take_lock_lem false f f' e =
    (refl, held_some (record f { held = true }) f' e, logs_some (record f { held = true }) f' e)

abbrev pub disk_lock : LockFile locked_disk
disk_lock = record {
  locked = λ f. f.held;
  symlink_metadata = λ f. missing;
  open_lock = λ f. some f;
  is_file = λ f. some true;
  try_lock = λ f. take_lock f.held f;
  set_permissions = λ f. some f;
  close = λ f. record f { held = false };
  open_lock_some = λ f f' e. (held_some f f' e, logs_some f f' e);
  try_lock_some = λ f f' e. take_lock_lem f.held f f' e;
  set_permissions_some = λ f f' e. (held_some f f' e, logs_some f f' e);
  close_locked = λ f. refl;
  open_append_locked = λ f f' p e.
      held_some (record f { logs = put p (some (unwrap_or (f.logs p) [])) f.logs }) f' e;
}

abbrev pub free_disk : LockedDisk
free_disk = record { held = false; logs = two_logs }

open_sink-IsOpened_example : IsOpened disk_lock 2 free_disk (open_sink disk_lock 6 2 free_disk)
open_sink-IsOpened_example = open_sink-IsOpened disk_lock 6 2 free_disk
