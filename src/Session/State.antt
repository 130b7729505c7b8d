-- ===== src/Session/State.antt =====
-- src/session.rs: the data types and the operations.
use honey_mind.Base.{
  ltb, leb, ◌==◌, within, if◌then◌else◌, length, take, Bytes, codes, ℕ, ◌+◌, ◌-◌, ◌/◌, ◌^◌, min,
  String, Bool, true, false, not, ◌&&◌, ◌||◌, Option, none, some, List, [], ◌∷◌, ◌++◌, map,
}
use honey_mind.Config.Address.{SocketAddr}
use honey_mind.Config.Schema.{
  Config, EndpointConfig, PrivacyConfig, PrivacyMode, is_full, Protocol, protocol_str, SensorConfig,
  label,
}

abbrev pub schema_version : ℕ
schema_version = 2

abbrev pub max_events : ℕ
max_events = 16

-- The message of a notice is always a literal of the source.
pub data SessionEvent : Type 0 where
  ssh_client_banner : Bytes → SessionEvent
  -- method, path, version, host, user agent
  http_request : Bytes → Bytes → Bytes → Option Bytes → Option Bytes → SessionEvent
  -- user name, password, whether the credentials are redacted
  telnet_login : Bytes → Option Bytes → Bool → SessionEvent
  notice_event : String → SessionEvent

-- `SessionEvent::kind`
pub kind : SessionEvent → String
kind (ssh_client_banner banner) = "ssh_client_banner"
kind (http_request method path version host user_agent) = "http_request"
kind (telnet_login username password credentials_redacted) = "telnet_login"
kind (notice_event msg) = "notice"

pub data CloseReason : Type 0 where
  client_closed timed_out lifetime_limit byte_limit : CloseReason
  protocol_error server_closed io_error shut_down : CloseReason

-- `CloseReason::as_str`
pub reason_str : CloseReason → String
reason_str client_closed = "client_closed"
reason_str timed_out = "timeout"
reason_str lifetime_limit = "lifetime_limit"
reason_str byte_limit = "byte_limit"
reason_str protocol_error = "protocol_error"
reason_str server_closed = "server_closed"
reason_str io_error = "error"
reason_str shut_down = "shutdown"

pub record SessionState : Type 0 where
  pub id : ℕ
  pub protocol : Protocol
  pub src : SocketAddr
  pub dst : SocketAddr
  pub started_at : ℕ
  pub ts : ℕ
  pub bytes_received : ℕ
  pub events : List SessionEvent
  pub preview : Bytes
  pub preview_limit : ℕ
  pub input_limit : ℕ
  pub events_truncated : Bool
  pub sensor : SensorConfig
  pub endpoint : Bytes
  pub privacy : PrivacyConfig

pub record SessionRecord : Type 0 where
  pub version : ℕ
  pub ts : ℕ
  pub session_id : ℕ
  pub sensor : SensorConfig
  pub endpoint : Bytes
  pub protocol : Bytes
  pub src : SocketAddr
  pub dst : SocketAddr
  pub dst_port : ℕ
  pub duration_ms : ℕ
  pub bytes_received : ℕ
  pub payload_captured : Bool
  pub bytes_truncated : Bool
  pub data_preview_hex : Bytes
  pub data_preview_ascii : Bytes
  pub privacy_mode : PrivacyMode
  pub events : List SessionEvent
  pub events_truncated : Bool
  pub close_reason : CloseReason

-- `u64::MAX`, and `saturating_add` on u64
abbrev pub u64_max : ℕ
u64_max = 2 ^ 64 - 1

abbrev pub sat_add : ℕ → ℕ → ℕ
sat_add a b = min (a + b) u64_max

-- `SessionState::new`, given the uuid and the times that it draws
unfoldable pub new_session :
    EndpointConfig → SocketAddr → SocketAddr → Config → ℕ → ℕ → ℕ → SessionState
new_session ep src dst cfg id started_at ts = record {
  id = id;
  protocol = ep.protocol;
  src = src;
  dst = dst;
  started_at = started_at;
  ts = ts;
  bytes_received = 0;
  events = [];
  preview = [];
  preview_limit = cfg.server.max_bytes_per_session;
  input_limit = cfg.server.max_read_bytes_per_session;
  events_truncated = false;
  sensor = cfg.sensor;
  endpoint = label ep;
  privacy = cfg.privacy;
}

-- A `u64` is a `usize` here, so the conversion changes nothing.
unfoldable pub remaining_input : SessionState → ℕ
remaining_input s = s.input_limit - min s.bytes_received u64_max

unfoldable pub record_bytes : SessionState → Bytes → SessionState
record_bytes s bytes =
    let counted = record s { bytes_received = sat_add s.bytes_received (length bytes) } in
    let room = min (s.preview_limit - length s.preview) (length bytes) in
    if is_full s.privacy.mode
    then record counted { preview = s.preview ++ take room bytes }
    else counted

abbrev pub redacted : Bytes
redacted = codes "[redacted]"

-- The path before its first `?` or `#`.
unfoldable pub cut_query : Bytes → Bytes
cut_query [] = []
cut_query (b ∷ path) = if b == b'?' || b == b'#' then [] else b ∷ cut_query path

abbrev redact_path : PrivacyConfig → Bytes → Bytes
redact_path p path =
    if not p.capture_http_path
    then redacted
    else if not (is_full p.mode)
    then cut_query path
    else path

abbrev pub redact_password : Option Bytes → Option Bytes
redact_password none = none
redact_password (some _) = some redacted

-- The `match` of `push_event`: what is kept of an event.
unfoldable pub redact : PrivacyConfig → SessionEvent → SessionEvent
redact p (http_request method path version host user_agent) =
    http_request method (redact_path p path) version (if is_full p.mode then host else none)
      (if is_full p.mode then user_agent else none)
redact p (telnet_login username password credentials_redacted) =
    if is_full p.mode
    then telnet_login username password credentials_redacted
    else telnet_login redacted (redact_password password) true
redact p (ssh_client_banner banner) = ssh_client_banner banner
redact p (notice_event msg) = notice_event msg

unfoldable pub push_event : SessionState → SessionEvent → SessionState
push_event s event =
    if leb max_events (length s.events)
    then record s { events_truncated = true }
    else record s { events = s.events ++ redact s.privacy event ∷ [] }

unfoldable pub notice : SessionState → String → SessionState
unfolding push_event
notice s msg = push_event s (notice_event msg)

unfoldable pub ascii_preview : Bytes → Bytes
ascii_preview = map (λ b. if within 0x20 0x7e b then b else b'.')

-- `hex::encode`, of the crate `hex`, is a parameter. `now` is the instant of the call.
module _ (hex_encode : Bytes → Bytes) where
  unfoldable pub finalize : SessionState → CloseReason → ℕ → SessionRecord
  finalize s close_reason now =
      let captured = is_full s.privacy.mode && ltb 0 s.preview_limit in
      record {
        version = schema_version;
        ts = s.ts;
        session_id = s.id;
        sensor = s.sensor;
        endpoint = s.endpoint;
        protocol = protocol_str s.protocol;
        src = s.src;
        dst = s.dst;
        dst_port = s.dst.port;
        duration_ms = min ((now - s.started_at) / 10 ^ 6) u64_max;
        bytes_received = s.bytes_received;
        payload_captured = captured;
        bytes_truncated = captured && ltb (length s.preview) s.bytes_received;
        data_preview_hex = hex_encode s.preview;
        data_preview_ascii = ascii_preview s.preview;
        privacy_mode = s.privacy.mode;
        events = s.events;
        events_truncated = s.events_truncated;
        close_reason = close_reason;
      }
