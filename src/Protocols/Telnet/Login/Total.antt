-- ===== src/Protocols/Telnet/Login/Total.antt =====
-- The dialogue ends by itself, over a good session.
use honey_mind.Base.Utf8.{from_utf8_lossy}
use honey_mind.Protocols.Raw.{with_banner-Ends}
use honey_mind.Config.Schema.{EndpointConfig}
use honey_mind.Protocols.Io.Triples.{
  Ends, IsOwn, Good, write_then, AfterRead, Ended, Ensures, push_event-Good, after-Ensures,
  push_event-remaining_input, read_then, Limits,
}
use honey_mind.Protocols.Telnet.Login.{
  attempts, read_line, LineOutcome, handle, ask_password, write_or_end, end_line, after_drain,
  after_more, after_password, after_username, max_attempts,
}
use honey_mind.Protocols.Telnet.Line.{
  LineReader, drain, Drained, line_read, new_reader, line_too_long, need_more,
}
use honey_mind.Session.State.{CloseReason, SessionState, notice, remaining_input, server_closed}
use honey_mind.Base.{
  Bool-cases, unwrap_or, option_map, is_empty, Bytes, codes, Result, ok, err, ℕ, zero, suc, ◌≤◌,
  ◌<◌, inl, inr, not, ◌||◌, Option, none, some, arith,
}
use honey_mind.Protocols.Io.{
  Stream, M, Run, Conn, ReadOutcome, return, after, done, dropped, starved,
}

-- The reason of a line that could not be read is the handler's own.
abbrev OwnFailure : Result (Option Bytes) CloseReason → Type 0
OwnFailure (ok o) = Unit
OwnFailure (err e) = IsOwn e

abbrev AfterLine : Limits → SessionState → LineOutcome → SessionState → Type 0
AfterLine ls s (o, r) s' = OwnFailure o × Good ls s' × (remaining_input s' ≤ remaining_input s)

-- Lines are read, or not, with less than `fuel` left to read.
abbrev Reads : {W : Type 0} → Limits → ℕ → (LineReader → M W LineOutcome) → Type 0
Reads {W} ls fuel again =
    (r : LineReader) (c : Conn W)
    → Good ls c.session
    → remaining_input c.session < fuel
    → Ensures ls (AfterLine ls c.session) (again r c)

module _ (ls : Limits) where
  AfterLine-mono :
      {W : Type 0} (s t : SessionState) (x : Run LineOutcome × Conn W)
      → remaining_input s ≤ remaining_input t
      → Ensures ls (AfterLine ls s) x
      → Ensures ls (AfterLine ls t) x
  AfterLine-mono s t (done (o, r), c) h p = (p.0, p.1, omega arith)
  AfterLine-mono s t (dropped i, c) h p = p
  AfterLine-mono s t (starved, c) h p = p

  after_more-Ensures :
      {W : Type 0} (fuel : ℕ) (again : LineReader → M W LineOutcome) (r : LineReader)
      (o : ReadOutcome) (s : SessionState) (c : Conn W)
      → Reads ls fuel again
      → remaining_input s < suc fuel
      → AfterRead ls s 256 o c.session
      → Ensures ls (AfterLine ls s) (after_more r again o c)
  unfolding notice
  after_more-Ensures fuel again r (ok none) s c k h p =
      elim (Bool-cases (not (is_empty r.line) || r.pending_cr)) [
        | inl e ↦ rw e (tt, push_event-Good _ _ p.0, rw push_event-remaining_input p.1)
        | inr e ↦ rw e (tt, p.0, p.1)
      ]
  after_more-Ensures fuel again r (ok (some bytes)) s c k h p =
      AfterLine-mono c.session s _ (omega arith) (k _ c p.0 (omega arith))
  after_more-Ensures fuel again r (err e) s c k h p = (p.0, p.1, p.2)

  module _ {W : Type 0} (stream : Stream W) where
    after_drain-Ensures :
        (fuel : ℕ) (again : LineReader → M W LineOutcome) (d : Drained) (c : Conn W)
        → Reads ls fuel again
        → Good ls c.session
        → remaining_input c.session < suc fuel
        → Ensures ls (AfterLine ls c.session) (after_drain stream d again c)
    unfolding notice
    after_drain-Ensures fuel again (line_read l r) c k g h = (tt, g, omega arith)
    after_drain-Ensures fuel again (line_too_long r) c k g h =
        (tt, push_event-Good _ _ g, rw push_event-remaining_input (omega arith))
    after_drain-Ensures fuel again (need_more r) c k g h =
        read_then ls stream (AfterLine ls c.session) 256 c _ g
          λ o c' p. after_more-Ensures fuel again r o c.session c' k h p

    read_line-Reads : (fuel : ℕ) → Reads ls fuel (read_line stream fuel)
    unfolding read_line
    read_line-Reads zero r c g h = absurd (omega arith)
    read_line-Reads (suc fuel) r c g h =
        after_drain-Ensures fuel (read_line stream fuel) (drain r) c (read_line-Reads fuel) g h

    write_or_end-Ends :
        (fuel : ℕ) (bytes : Bytes) (rest : M W CloseReason)
        → Ends ls fuel rest
        → Ends ls fuel (write_or_end stream bytes rest)
    write_or_end-Ends fuel bytes rest k c g h =
        write_then ls stream (Ended ls) bytes c _ g
          (elim [ ok u ↦ λ c' p. k c' p.0 (omega arith) | err e ↦ λ c' p. (p.0, p.1) ])

    -- A line, and what goes on from it.
    line_then :
        (fuel : ℕ) (r : LineReader) (f : LineOutcome → M W CloseReason) (c : Conn W)
        → Good ls c.session
        → remaining_input c.session < fuel
        → ((l : LineOutcome) (c' : Conn W)
            → AfterLine ls c.session l c'.session
            → Ensures ls (Ended ls) (f l c'))
        → Ensures ls (Ended ls) (after (read_line stream fuel r c) f)
    line_then fuel r f c g h k =
        after-Ensures ls (AfterLine ls c.session) (Ended ls) (read_line stream fuel r c) f
          (read_line-Reads fuel r c g h) k

    module _ (fuel : ℕ) (again : LineReader → M W CloseReason)
        (k : (r : LineReader) → Ends ls fuel (again r)) where
      after_password-Ensures :
          (username : Bytes) (l : LineOutcome) (s : SessionState) (c : Conn W)
          → remaining_input s < fuel
          → AfterLine ls s l c.session
          → Ensures ls (Ended ls) (after_password stream username again l c)
      after_password-Ensures username (ok (some value), r) s c h p =
          write_or_end-Ends fuel _ (again r) (k r) _ (push_event-Good _ _ p.1)
            (rw push_event-remaining_input (omega arith))
      after_password-Ensures username (ok none, r) s c h p = (tt, push_event-Good _ _ p.1)
      after_password-Ensures username (err e, r) s c h p = (p.0, push_event-Good _ _ p.1)

      ask_password-Ends :
          (username : Bytes) (r : LineReader)
          → Ends ls fuel (ask_password stream fuel username r again)
      ask_password-Ends username r c g h = write_then ls stream (Ended ls) _ c _ g (elim [
        | ok u ↦ λ c' p.
            line_then fuel r _ c' p.0 (omega arith)
              λ l c'' q. after_password-Ensures username l c'.session c'' (omega arith) q
        | err e ↦ λ c' p. (p.0, push_event-Good _ _ p.1)
      ])

      after_username-Ensures :
          (l : LineOutcome) (s : SessionState) (c : Conn W)
          → remaining_input s < fuel
          → AfterLine ls s l c.session
          → Ensures ls (Ended ls) (after_username stream fuel again l c)
      after_username-Ensures (ok (some value), r) s c h p =
          elim (Bool-cases (is_empty (from_utf8_lossy value))) [
            | inl e ↦ rw e (k r c p.1 (omega arith))
            | inr e ↦ rw e (ask_password-Ends (from_utf8_lossy value) r c p.1 (omega arith))
          ]
      after_username-Ensures (ok none, r) s c h p = (tt, p.1)
      after_username-Ensures (err e, r) s c h p = (p.0, p.1)

    attempts-Ends :
        (fuel left : ℕ) (prompt : Bytes) (r : LineReader)
        → Ends ls fuel (attempts stream fuel left prompt r)
    unfolding attempts
    attempts-Ends fuel zero prompt r =
        write_or_end-Ends fuel _ (return server_closed) λ c g h. (tt, g)
    attempts-Ends fuel (suc left) prompt r = write_or_end-Ends fuel prompt _ λ c g h.
        line_then fuel r _ c g h λ l c' p.
          after_username-Ensures fuel (attempts stream fuel left prompt)
            (attempts-Ends fuel left prompt) l c.session c' h p

    pub handle-Ends : (fuel : ℕ) (ep : EndpointConfig) → Ends ls fuel (handle stream fuel ep)
    unfolding handle
    handle-Ends fuel ep =
        let prompt = unwrap_or ep.login_prompt (codes "login: ") in
        with_banner-Ends stream ls fuel (option_map (end_line stream) ep.banner)
          (attempts stream fuel max_attempts prompt new_reader)
          (attempts-Ends fuel max_attempts prompt new_reader)
