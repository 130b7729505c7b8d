-- ===== src/Protocols/Raw.antt =====
-- src/protocols/raw.rs: an optional banner, then capture until the peer or a limit ends it.
use honey_mind.Protocols.Io.Triples.{Ensures, AfterRead, Ended, read_then, Ends, write_then, Limits}
use honey_mind.Config.Schema.{EndpointConfig}
use honey_mind.Session.State.{CloseReason, remaining_input, client_closed, SessionState}
use honey_mind.Base.{Bytes, ok, err, ℕ, zero, suc, ◌<◌, Option, none, some, arith}
use honey_mind.Protocols.Io.{
  ◌>>=◌, Stream, M, return, Conn, out_of_fuel, io_read, ReadOutcome, io_write,
}

module _ {W : Type 0} (stream : Stream W) where
  -- The `match` on a read; `again` is the next round.
  abbrev capture_next : M W CloseReason → ReadOutcome → M W CloseReason
  capture_next again (ok none) = return client_closed
  capture_next again (ok (some _)) = again
  capture_next again (err reason) = return reason

  capture_loop : ℕ → M W CloseReason
  capture_loop zero = out_of_fuel
  capture_loop (suc fuel) = do r ← io_read stream 4096; capture_next (capture_loop fuel) r

  -- `write` of an optional banner, and what follows if it succeeds
  abbrev pub with_banner : Option Bytes → M W CloseReason → M W CloseReason
  with_banner none rest = rest
  with_banner (some banner) rest = do
    r ← io_write stream banner
    elim r [ ok _ ↦ rest | err reason ↦ return reason ]

  unfoldable pub handle : ℕ → EndpointConfig → M W CloseReason
  unfolding capture_loop
  handle fuel ep = with_banner ep.banner (capture_loop fuel)

  module _ (ls : Limits) where
    capture_next-Ensures :
        (fuel : ℕ) (again : M W CloseReason) (r : ReadOutcome) (s : SessionState) (c : Conn W)
        → Ends ls fuel again
        → remaining_input s < suc fuel
        → AfterRead ls s 4096 r c.session
        → Ensures ls (Ended ls) (capture_next again r c)
    capture_next-Ensures fuel again (ok none) s c k h p = (tt, p.0)
    capture_next-Ensures fuel again (ok (some bytes)) s c k h p = k c p.0 (omega arith)
    capture_next-Ensures fuel again (err e) s c k h p = (p.0, p.1)

    capture_loop-Ends : (fuel : ℕ) → Ends ls fuel (capture_loop fuel)
    unfolding capture_loop
    capture_loop-Ends zero c g h = absurd (omega arith)
    capture_loop-Ends (suc fuel) c g h = read_then ls stream (Ended ls) 4096 c _ g λ r c' p.
        capture_next-Ensures fuel (capture_loop fuel) r c.session c' (capture_loop-Ends fuel) h p

    -- A banner keeps what follows it.
    pub with_banner-Ends :
        (fuel : ℕ) (banner : Option Bytes) (rest : M W CloseReason)
        → Ends ls fuel rest
        → Ends ls fuel (with_banner banner rest)
    with_banner-Ends fuel none rest k c g h = k c g h
    with_banner-Ends fuel (some banner) rest k c g h =
        write_then ls stream (Ended ls) banner c _ g
          (elim [ ok u ↦ λ c' p. k c' p.0 (omega arith) | err e ↦ λ c' p. (p.0, p.1) ])

    pub handle-Ends : (fuel : ℕ) (ep : EndpointConfig) → Ends ls fuel (handle fuel ep)
    unfolding handle
    handle-Ends fuel ep =
        with_banner-Ends fuel ep.banner (capture_loop fuel) (capture_loop-Ends fuel)
