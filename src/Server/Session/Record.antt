-- ===== src/Server/Session/Record.antt =====
-- What the supervisor hands to the logger.
use honey_mind.Base.{
  length, All, Bytes, ok, ℕ, ◌≤◌, ◌<◌, ◌≡◌, refl, ap, subst, Bool, true, false, Option, none, some,
  List, [], ◌∷◌, arith, ◌∙◌,
}
use honey_mind.Session.Bounds.{IsRedacted, Unless, new_session-Inv}
use honey_mind.Session.State.{
  SessionRecord, max_events, finalize, ascii_preview, SessionState, CloseReason, new_session,
  remaining_input, SessionEvent, shut_down, lifetime_limit,
}
use honey_mind.Config.Schema.{Config, EndpointConfig, Protocol, is_full}
use honey_mind.Config.Address.{SocketAddr}
use honey_mind.Config.Validate.{validate}
use honey_mind.Config.Validate.Limits.{validate-limits}
use honey_mind.Metrics.{Metrics}
use honey_mind.Protocols.Dispatch
use honey_mind.Protocols.Io.{
  Stream, Run, Conn, done, dropped, starved, shutdown_requested, lifetime_over,
}
use honey_mind.Protocols.Io.Triples.{Good, Limits, Ensures, Ended}
use honey_mind.Server.Session.{
  Closed, handle_session, close, reason_of, begin_session, end_session, count_events,
}

-- A record within the configured bounds, with what the privacy hides left out. Both previews show the same
-- bytes, which are none in metadata mode.
pub record IsBounded (hex_encode : Bytes → Bytes) (cfg : Config) (r : SessionRecord) : Type 0 where
  pub received : r.bytes_received ≤ cfg.server.max_read_bytes_per_session
  pub shown : Bytes
  pub hex : r.data_preview_hex ≡ hex_encode shown
  pub ascii : r.data_preview_ascii ≡ ascii_preview shown
  pub previewed : length shown ≤ cfg.server.max_bytes_per_session
  pub hidden :
      Unless (is_full cfg.privacy.mode) ((r.data_preview_hex ≡ []) × (r.data_preview_ascii ≡ []))
  pub few : length r.events ≤ max_events
  pub redacted_events : All (IsRedacted cfg.privacy) r.events

-- The session ends, and leaves a bounded record; the gauge of active sessions is as it was.
abbrev pub Closes : (Bytes → Bytes) → Config → Metrics → Option Closed → Type 0
Closes hex_encode cfg m none = ⊥
Closes hex_encode cfg m (some (r, m')) =
    IsBounded hex_encode cfg r × (m'.active_sessions ≡ m.active_sessions)

abbrev configured : Config → Limits
configured cfg = record {
  input = cfg.server.max_read_bytes_per_session;
  preview = cfg.server.max_bytes_per_session;
  privacy = cfg.privacy;
}

previews-hidden :
    (hex_encode : Bytes → Bytes) (b : Bool) (bytes : Bytes)
    → hex_encode [] ≡ []
    → Unless b (bytes ≡ [])
    → Unless b ((hex_encode bytes ≡ []) × (ascii_preview bytes ≡ []))
unfolding ascii_preview
previews-hidden hex_encode true bytes e h = tt
previews-hidden hex_encode false bytes e h = (ap hex_encode h ∙ e, ap ascii_preview h)

count_events-active_sessions :
    (p : Protocol) (es : List SessionEvent) (m : Metrics)
    → (count_events p es m).active_sessions ≡ m.active_sessions
unfolding count_events
count_events-active_sessions p [] m = refl
count_events-active_sessions p (e ∷ es) m = count_events-active_sessions p es _

end_session-active_sessions :
    (p : Protocol) (s : SessionState) (reason : CloseReason) (now : ℕ) (m : Metrics)
    → (end_session p s reason now (begin_session p m)).active_sessions ≡ m.active_sessions
unfolding end_session begin_session
end_session-active_sessions p s reason now m =
    omega (arith, count_events-active_sessions p s.events _)

module _ (hex_encode : Bytes → Bytes) (hex_encode_nil : hex_encode [] ≡ []) where
  finalize-IsBounded :
      (cfg : Config) (s : SessionState) (reason : CloseReason) (now : ℕ)
      → Good (configured cfg) s
      → IsBounded hex_encode cfg (finalize hex_encode s reason now)
  unfolding finalize
  finalize-IsBounded cfg s reason now g =
      let input = ap (λ ls. ls.input) g.kept in
      let preview = ap (λ ls. ls.preview) g.kept in
      let privacy = ap (λ ls. ls.privacy) g.kept in
      record {
        received = omega (arith, g.inv.received, input);
        shown = s.preview;
        hex = refl;
        ascii = refl;
        previewed = omega (arith, g.inv.previewed, preview);
        hidden =
            subst
              (λ p.
                Unless (is_full p.mode)
                  ((hex_encode s.preview ≡ []) × (ascii_preview s.preview ≡ [])))
              privacy
              (previews-hidden hex_encode (is_full s.privacy.mode) s.preview hex_encode_nil
                g.inv.hidden);
        few = g.inv.few;
        redacted_events = subst (λ p. All (IsRedacted p) s.events) privacy g.inv.redacted_events;
      }

  close-Closes :
      {W : Type 0} (cfg : Config) (p : Protocol) (now : ℕ) (m : Metrics)
      (x : Run CloseReason × Conn W)
      → Ensures (configured cfg) (Ended (configured cfg)) x
      → Closes hex_encode cfg m
          (close hex_encode p now (begin_session p m) x.1.session (reason_of x.0))
  unfolding close reason_of
  close-Closes cfg p now m (done reason, c) h = (
    finalize-IsBounded cfg c.session reason now h.1,
    end_session-active_sessions p c.session reason now m,
  )
  close-Closes cfg p now m (dropped shutdown_requested, c) h = (
    finalize-IsBounded cfg c.session shut_down now h,
    end_session-active_sessions p c.session shut_down now m,
  )
  close-Closes cfg p now m (dropped lifetime_over, c) h = (
    finalize-IsBounded cfg c.session lifetime_limit now h,
    end_session-active_sessions p c.session lifetime_limit now m,
  )
  close-Closes cfg p now m (starved, c) h = absurd h

  new_session-Good :
      (ep : EndpointConfig) (peer destination : SocketAddr) (cfg : Config) (id started_at ts : ℕ)
      → validate cfg ≡ ok tt
      → Good (configured cfg) (new_session ep peer destination cfg id started_at ts)
  unfolding new_session
  new_session-Good ep peer destination cfg id started_at ts v = record {
    inv = new_session-Inv ep peer destination cfg id started_at ts;
    kept = refl;
    small = omega (arith, (validate-limits cfg v).0.input);
  }

  new_session-budget :
      (ep : EndpointConfig) (peer destination : SocketAddr) (cfg : Config)
      (id started_at ts fuel : ℕ)
      → cfg.server.max_read_bytes_per_session < fuel
      → remaining_input (new_session ep peer destination cfg id started_at ts) < fuel
  unfolding new_session remaining_input
  new_session-budget ep peer destination cfg id started_at ts fuel h = omega arith

  module _ (canonical_reason : ℕ → Option Bytes) {W : Type 0} (stream : Stream W) where
    -- With a configuration that `validate` accepts and fuel above the configured number of bytes to
    -- read, every session of every decoy ends, whatever the peer, the network and the supervisor do.
    -- Its record has received at most the configured number of bytes; the two previews are the
    -- hexadecimal and the ASCII form of the same bytes, at most as many as configured, and are both
    -- empty in metadata mode. It has at most 16 events, and what the privacy hides is in none of them.
    -- The gauge of active sessions is what it was before. Hexadecimal encoding makes nothing of nothing.
    pub handle_session-Closes :
        (fuel : ℕ) (ep : EndpointConfig) (peer destination : SocketAddr) (cfg : Config)
        (id started_at ts now : ℕ) (world : W) (m : Metrics)
        → validate cfg ≡ ok tt
        → cfg.server.max_read_bytes_per_session < fuel
        → Closes hex_encode cfg m (
            handle_session hex_encode canonical_reason stream fuel ep peer destination cfg id
              started_at ts now world m)
    unfolding handle_session
    handle_session-Closes fuel ep peer destination cfg id started_at ts now world m v h =
        let session = new_session ep peer destination cfg id started_at ts in
        let c : Conn W = record { session = session; world = world } in
        close-Closes cfg ep.protocol now m (Dispatch.handle canonical_reason stream fuel ep c) (
          Dispatch.handle-Ensures canonical_reason stream (configured cfg) fuel ep c
            (new_session-Good ep peer destination cfg id started_at ts v)
            (new_session-budget ep peer destination cfg id started_at ts fuel h))
