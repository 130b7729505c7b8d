-- ===== src/Protocols/Io.antt =====
-- src/protocols/mod.rs: `SessionIo`, over a stream of tokio that is a parameter. A handler is a
-- future; the supervisor of src/server.rs may drop it wherever it awaits the stream, and then it
-- does no more. A loop takes fuel, and `starved` is what it returns when that runs out.
pub mod Triples
pub mod Script
use honey_mind.Session.State.{
  CloseReason, SessionState, remaining_input, byte_limit, io_error, record_bytes, timed_out, notice,
}
use honey_mind.Base.{
  ◌==◌, if◌then◌else◌, length, Bytes, Result, ok, err, ℕ, ◌≤◌, min, ◌≡◌, Option, none, some, [],
  ◌∷◌, String,
}

-- What ends a session from outside: the token, or the sleep of the absolute lifetime.
pub data Interrupt : Type 0 where
  shutdown_requested lifetime_over : Interrupt

-- `timeout(idle_timeout, stream.read(buf))`: the bytes that came, none of them at the end of the
-- stream, an error, the idle deadline, or the handler is dropped during the wait.
pub data ReadResult : Type 0 where
  received : Bytes → ReadResult
  read_failed read_elapsed : ReadResult
  read_dropped : Interrupt → ReadResult

-- `timeout(idle_timeout, stream.write_all(bytes))`
pub data WriteResult : Type 0 where
  written write_failed write_elapsed : WriteResult
  write_dropped : Interrupt → WriteResult

-- The stream, with the world behind it. A read never yields more than the buffer holds.
pub record Stream (W : Type 0) : Type 0 where
  pub read : W → ℕ → ReadResult × W
  pub write : W → Bytes → WriteResult × W
  pub read_le : (w : W) (n : ℕ) (bytes : Bytes) → (read w n).0 ≡ received bytes → length bytes ≤ n

pub data Run (A : Type 0) : Type 0 where
  done : A → Run A
  dropped : Interrupt → Run A
  starved : Run A

pub record Conn (W : Type 0) : Type 0 where
  pub session : SessionState
  pub world : W

abbrev pub M : Type 0 → Type 0 → Type 0
M W A = Conn W → Run A × Conn W

module _ {W : Type 0} where
  abbrev pub return : {A : Type 0} → A → M W A
  return a c = (done a, c)

  abbrev pub after : {A B : Type 0} → Run A × Conn W → (A → M W B) → Run B × Conn W
  after (done a, c) f = f a c
  after (dropped i, c) f = (dropped i, c)
  after (starved, c) f = (starved, c)

  infixl 5 ◌>>=◌ ◌>>◌
  abbrev pub ◌>>=◌ : {A B : Type 0} → M W A → (A → M W B) → M W B
  ◌>>=◌ m f c = after (m c) f

  abbrev pub ◌>>◌ : {B : Type 0} → M W (Unit {0}) → M W B → M W B
  ◌>>◌ m k = m >>= λ _. k

  -- A change of the session, with no wait.
  abbrev pub modify : (SessionState → SessionState) → M W (Unit {0})
  modify f c = (done tt, record c { session = f c.session })

  -- A notice, and the end of the session.
  abbrev pub refuse : String → CloseReason → M W CloseReason
  refuse msg reason = modify (λ s. notice s msg) >> return reason

  abbrev pub out_of_fuel : {A : Type 0} → M W A
  out_of_fuel c = (starved, c)

abbrev pub ReadOutcome : Type 0
ReadOutcome = Result (Option Bytes) CloseReason

module _ {W : Type 0} (stream : Stream W) where
  pub after_read : ReadResult → M W ReadOutcome
  after_read (received []) c = (done (ok none), c)
  after_read (received (b ∷ bytes)) c =
      (done (ok (some (b ∷ bytes))), record c { session = record_bytes c.session (b ∷ bytes) })
  after_read read_failed c = (done (err io_error), c)
  after_read read_elapsed c = (done (err timed_out), c)
  after_read (read_dropped i) c = (dropped i, c)

  -- `SessionIo::read`, into a buffer of `n` bytes; the bytes stand for their number.
  pub io_read : ℕ → M W ReadOutcome
  unfolding after_read
  io_read n c =
      let available = min (remaining_input c.session) n in
      if available == 0
      then (done (err byte_limit), c)
      else let (r, w) = stream.read c.world available in after_read r (record c { world = w })

  pub after_write : WriteResult → M W (Result (Unit {0}) CloseReason)
  after_write written c = (done (ok tt), c)
  after_write write_failed c = (done (err io_error), c)
  after_write write_elapsed c = (done (err timed_out), c)
  after_write (write_dropped i) c = (dropped i, c)

  -- `SessionIo::write`
  pub io_write : Bytes → M W (Result (Unit {0}) CloseReason)
  unfolding after_write
  io_write bytes c =
      let (r, w) = stream.write c.world bytes in after_write r (record c { world = w })
