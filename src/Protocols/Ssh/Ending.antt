-- ===== src/Protocols/Ssh/Ending.antt =====
-- How a session with the decoy ends: the reason, and the one event that it may leave.
use honey_mind.Base.{if◌then◌else◌, Bytes, ◌≡◌, ◌∙◌, Option, none, some, List, [], ◌∷◌, arith}
use honey_mind.Base.Utf8.{from_utf8_lossy}
use honey_mind.Protocols.Io.{Conn, Run, done}
use honey_mind.Protocols.Io.Script.{Script, conn}
use honey_mind.Protocols.Io.Triples.{Limits, Good}
use honey_mind.Protocols.Ssh.{Scan, line_found, too_long, incomplete, valid_identification}
use honey_mind.Session.State.{
  SessionState, SessionEvent, CloseReason, client_closed, protocol_error, push_event, notice_event,
  record_bytes, ssh_client_banner,
}

-- The event that a scan of everything leaves, if any, and the reason that ends the session.
abbrev pub event_of : Scan → Option SessionEvent
event_of (line_found line) =
    if valid_identification line
    then some (ssh_client_banner (from_utf8_lossy line))
    else some (notice_event "ssh_invalid_identification")
event_of too_long = some (notice_event "ssh_identification_too_long")
event_of (incomplete []) = none
event_of (incomplete (b ∷ bytes)) = some (notice_event "ssh_incomplete_identification")

abbrev pub reason_of : Scan → CloseReason
reason_of (line_found line) = if valid_identification line then client_closed else protocol_error
reason_of too_long = protocol_error
reason_of (incomplete bytes) = client_closed

abbrev pub with_event : SessionState → Option SessionEvent → SessionState
with_event s none = s
with_event s (some event) = push_event s event

-- The session ends for the reason, with the event as its only new one.
abbrev pub IsDone :
    Limits
    → CloseReason
    → Option SessionEvent
    → SessionState
    → Bytes
    → Run CloseReason × Conn Script
    → Type 0
IsDone ls reason event s out r =
    (s' : SessionState) × (left : List Bytes) × (r ≡ (done reason, conn s' left out))
    × (s'.events ≡ (with_event s event).events)
    × Good ls s'

recorded_events :
    (s : SessionState) (bytes : Bytes) (o : Option SessionEvent)
    → (with_event (record_bytes s bytes) o).events ≡ (with_event s o).events
unfolding record_bytes push_event
recorded_events s bytes none = ground arith
recorded_events s bytes (some e) = ground arith

pub recorded-IsDone :
    (ls : Limits) (reason : CloseReason) (o : Option SessionEvent) (s : SessionState)
    (bytes out : Bytes) (r : Run CloseReason × Conn Script)
    → IsDone ls reason o (record_bytes s bytes) out r
    → IsDone ls reason o s out r
recorded-IsDone ls reason o s bytes out r (s', left, e, events, g) =
    (s', left, e, events ∙ recorded_events s bytes o, g)
