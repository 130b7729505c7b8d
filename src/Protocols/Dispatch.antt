-- ===== src/Protocols/Dispatch.antt =====
-- src/protocols/mod.rs: `handle`, which runs the decoy of an endpoint.
use honey_mind.Protocols.Io.Triples.{Ends, Good, Ensures, Ended, Limits}
use honey_mind.Session.State.{CloseReason, remaining_input}
use honey_mind.Config.Schema.{EndpointConfig, Protocol, raw, ssh, http, telnet}
use honey_mind.Base.{Bytes, ℕ, Option, ◌<◌}
use honey_mind.Protocols.Raw
use honey_mind.Protocols.Ssh
use honey_mind.Protocols.Telnet.Login
use honey_mind.Protocols.Http.Exchange
use honey_mind.Protocols.Io.{Stream, M, Conn}

module _ (canonical_reason : ℕ → Option Bytes) {W : Type 0} (stream : Stream W) where
  handle_by : Protocol → ℕ → EndpointConfig → M W CloseReason
  handle_by raw fuel ep = Raw.handle stream fuel ep
  handle_by ssh fuel ep = Ssh.handle stream fuel ep
  handle_by http fuel ep = Exchange.handle canonical_reason stream fuel ep
  handle_by telnet fuel ep = Login.handle stream fuel ep

  pub handle : ℕ → EndpointConfig → M W CloseReason
  unfolding handle_by
  handle fuel ep = handle_by ep.protocol fuel ep

  module _ (ls : Limits) where
    handle_by-Ends :
        (p : Protocol) (fuel : ℕ) (ep : EndpointConfig) → Ends ls fuel (handle_by p fuel ep)
    unfolding handle_by
    handle_by-Ends raw fuel ep = Raw.handle-Ends stream ls fuel ep
    handle_by-Ends ssh fuel ep = Ssh.Total.handle-Ends ls stream fuel ep
    handle_by-Ends http fuel ep = Exchange.Total.handle-Ends ls canonical_reason stream fuel ep
    handle_by-Ends telnet fuel ep = Login.Total.handle-Ends ls stream fuel ep

    -- Whatever the peer, the network and the supervisor do, a decoy whose fuel exceeds what a good
    -- session may still read does not run out of it. It ends by a reason of its own, never by one of
    -- the supervisor's, or it is dropped. Either way the session is good: the bytes received, the
    -- preview and the events are within their limits, what the privacy asks for is redacted, and
    -- neither the limits nor the privacy have changed.
    pub handle-Ensures :
        (fuel : ℕ) (ep : EndpointConfig) (c : Conn W)
        → Good ls c.session
        → remaining_input c.session < fuel
        → Ensures ls (Ended ls) (handle fuel ep c)
    unfolding handle
    handle-Ensures fuel ep c g h = handle_by-Ends ep.protocol fuel ep c g h
