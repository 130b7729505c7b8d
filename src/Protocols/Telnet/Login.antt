-- ===== src/Protocols/Telnet/Login.antt =====
-- src/protocols/telnet.rs: `read_line` and the login dialogue.
pub mod Total
pub mod Reads
pub mod Typed
pub mod Client
use honey_mind.Protocols.Raw.{with_banner}
use honey_mind.Base.Utf8.{from_utf8_lossy}
use honey_mind.Config.Schema.{EndpointConfig}
use honey_mind.Protocols.Telnet.Line.{
  Drained, LineReader, line_read, drain, line_too_long, new_reader, need_more,
}
use honey_mind.Session.State.{
  CloseReason, SessionState, push_event, server_closed, client_closed, notice, telnet_login,
  protocol_error,
}
use honey_mind.Base.{
  if◌then◌else◌, unwrap_or, option_map, is_empty, Bytes, codes, ends_with, Result, ok, err, ℕ, zero,
  suc, false, not, ◌||◌, Option, none, some, [], ◌∷◌, ◌++◌,
}
use honey_mind.Protocols.Io.{
  ◌>>=◌, ◌>>◌, Stream, M, return, ReadOutcome, io_write, modify, out_of_fuel, io_read,
}

abbrev pub max_attempts : ℕ
max_attempts = 3

-- A line if the peer sent one before it closed, or the reason to end; and the reader.
abbrev pub LineOutcome : Type 0
LineOutcome = Result (Option Bytes) CloseReason × LineReader

-- `login`
abbrev pub login : Bytes → Option Bytes → SessionState → SessionState
login username password s = push_event s (telnet_login username password false)

-- The `match` on a read; `again` is the next round of the loop.
abbrev pub after_more :
    {W : Type 0} → LineReader → (LineReader → M W LineOutcome) → ReadOutcome → M W LineOutcome
after_more r again (ok none) =
    if not (is_empty r.line) || r.pending_cr
    then (modify (λ s. notice s "telnet_incomplete_line") >> return (ok none, r))
    else return (ok none, r)
after_more r again (ok (some bytes)) = again (record r { pending = r.pending ++ bytes })
after_more r again (err reason) = return (err reason, r)

module _ {W : Type 0} (stream : Stream W) where
  abbrev pub after_drain : Drained → (LineReader → M W LineOutcome) → M W LineOutcome
  after_drain (line_read line r) again = return (ok (some line), r)
  after_drain (line_too_long r) again =
      modify (λ s. notice s "telnet_line_too_long") >> return (err protocol_error, r)
  after_drain (need_more r) again = do o ← io_read stream 256; after_more r again o

  pub read_line : ℕ → LineReader → M W LineOutcome
  read_line zero r = out_of_fuel
  read_line (suc fuel) r = after_drain (drain r) (read_line fuel)

  -- A write that must succeed for the rest to follow.
  abbrev pub write_or_end : Bytes → M W CloseReason → M W CloseReason
  write_or_end bytes rest = do
    o ← io_write stream bytes
    elim o [ ok _ ↦ rest | err reason ↦ return reason ]

  -- The `match` on the second line of an attempt.
  abbrev pub after_password : Bytes → (LineReader → M W CloseReason) → LineOutcome → M W CloseReason
  after_password username again (ok (some value), r) =
      modify (login username (some (from_utf8_lossy value)))
      >> write_or_end (codes "Login incorrect\r\n") (again r)
  after_password username again (ok none, r) = modify (login username none) >> return client_closed
  after_password username again (err reason, r) = modify (login username none) >> return reason

  -- From the write of the password prompt on.
  abbrev pub ask_password :
      ℕ → Bytes → LineReader → (LineReader → M W CloseReason) → M W CloseReason
  ask_password fuel username r again = do
    o ← io_write stream (codes "Password: ")
    elim o [
      | ok _ ↦ do l ← read_line fuel r; after_password username again l
      | err reason ↦ modify (login username none) >> return reason
    ]

  -- The `match` on the first line of an attempt.
  abbrev pub after_username : ℕ → (LineReader → M W CloseReason) → LineOutcome → M W CloseReason
  after_username fuel again (ok (some value), r) =
      let username = from_utf8_lossy value in
      if is_empty username then again r else ask_password fuel username r again
  after_username fuel again (ok none, r) = return client_closed
  after_username fuel again (err reason, r) = return reason

  -- `for _ in 0..MAX_ATTEMPTS`, and what stands behind the loop
  pub attempts : ℕ → ℕ → Bytes → LineReader → M W CloseReason
  attempts fuel zero prompt r =
      write_or_end (codes "Too many attempts. Disconnecting.\r\n") (return server_closed)
  attempts fuel (suc left) prompt r =
      write_or_end prompt do l ← read_line fuel r; after_username fuel (attempts fuel left prompt) l

  -- A banner that lacks its newline gets CR LF.
  abbrev pub end_line : Bytes → Bytes
  end_line banner = if ends_with (b'\n' ∷ []) banner then banner else banner ++ (b'\r' ∷ b'\n' ∷ [])

  unfoldable pub handle : ℕ → EndpointConfig → M W CloseReason
  unfolding attempts read_line
  handle fuel ep =
      let prompt = unwrap_or ep.login_prompt (codes "login: ") in
      with_banner stream (option_map end_line ep.banner)
        (attempts fuel max_attempts prompt new_reader)
