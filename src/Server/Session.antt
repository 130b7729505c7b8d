-- ===== src/Server/Session.antt =====
-- src/server.rs: `handle_session`, which runs a decoy under the supervisor and records the session.
pub mod Record
mod Tests
use honey_mind.Config.Address.{SocketAddr}
use honey_mind.Metrics.{Metrics, add_at, inc_label}
use honey_mind.Session.State.{
  CloseReason, SessionRecord, SessionEvent, SessionState, shut_down, finalize, lifetime_limit, kind,
  new_session, reason_str,
}
use honey_mind.Config.Schema.{EndpointConfig, Protocol, Config}
use honey_mind.Base.{Bytes, ℕ, ◌+◌, ◌-◌, Option, none, some, List, [], ◌∷◌, ◌++◌}
use honey_mind.Protocols.Dispatch
use honey_mind.Protocols.Io.{Stream, Run, done, dropped, starved, shutdown_requested, lifetime_over}

-- What the counters of `handle_session` do at its start, and at its end.
pub begin_session : Protocol → Metrics → Metrics
begin_session p m = record m {
  connections_total = add_at p 1 m.connections_total;
  active_sessions = m.active_sessions + 1;
}

-- `for event in &session.events`
pub count_events : Protocol → List SessionEvent → Metrics → Metrics
count_events p [] m = m
count_events p (e ∷ es) m =
    count_events p es (record m { events_total = inc_label p (kind e) m.events_total })

-- The guard of the active sessions is dropped last.
pub end_session : Protocol → SessionState → CloseReason → ℕ → Metrics → Metrics
unfolding count_events
end_session p s reason now m =
    let counted = count_events p s.events (record m {
      bytes_received_total = add_at p s.bytes_received m.bytes_received_total;
      session_durations = m.session_durations ++ (p, now - s.started_at) ∷ [];
      closed_sessions_total = inc_label p (reason_str reason) m.closed_sessions_total;
    }) in
    record counted { active_sessions = counted.active_sessions - 1 }

-- The branch of the `select!` that is taken: the decoy's, or one of those that drop it.
pub reason_of : Run CloseReason → Option CloseReason
reason_of (done reason) = some reason
reason_of (dropped shutdown_requested) = some shut_down
reason_of (dropped lifetime_over) = some lifetime_limit
reason_of starved = none

-- What a session leaves: its record for the logger, and the counters.
abbrev pub Closed : Type 0
Closed = SessionRecord × Metrics

module _ (hex_encode : Bytes → Bytes) where
  close : Protocol → ℕ → Metrics → SessionState → Option CloseReason → Option Closed
  close p now m s none = none
  close p now m s (some reason) =
      some (finalize hex_encode s reason now, end_session p s reason now m)

  module _ (canonical_reason : ℕ → Option Bytes) {W : Type 0} (stream : Stream W) where
    -- `none` is a decoy that is out of fuel. The uuid, the times and the world of the stream are
    -- arguments, and so is the address of the socket; `now` is the instant of the end.
    pub handle_session :
        ℕ
        → EndpointConfig
        → SocketAddr
        → SocketAddr
        → Config
        → ℕ
        → ℕ
        → ℕ
        → ℕ
        → W
        → Metrics
        → Option Closed
    unfolding close reason_of
    handle_session fuel ep peer destination cfg id started_at ts now world m =
        let session = new_session ep peer destination cfg id started_at ts in
        let (run, c) =
          Dispatch.handle canonical_reason stream fuel ep
            (record { session = session; world = world }) in
        close ep.protocol now (begin_session ep.protocol m) c.session (reason_of run)
