-- ===== src/Config/Schema.antt =====
-- src/config.rs: the types of the configuration and their defaults. Texts are byte strings in
-- UTF-8; `usize` is 64 bits wide.
use honey_mind.Base.{
  ℕ, ◌*◌, Bool, true, false, ◌||◌, not, Option, none, some, List, [], ◌∷◌, ◌++◌, Bytes, codes,
  bytes_eq, is_empty, is_some, if◌then◌else◌,
}
use honey_mind.Base.Decimal.{decimal}
use honey_mind.Config.Address.{IpAddr, v4, SocketAddr}

pub record SensorConfig : Type 0 where
  pub id : Bytes
  pub environment : Bytes
  -- a map: its entries in the order of their keys
  pub tags : List (Bytes × Bytes)

pub data PrivacyMode : Type 0 where
  metadata full : PrivacyMode

-- `PartialEq` of `PrivacyMode`, against each mode
abbrev pub is_full : PrivacyMode → Bool
is_full metadata = false
is_full full = true

pub record PrivacyConfig : Type 0 where
  pub mode : PrivacyMode
  pub capture_http_path : Bool

pub record LoggingConfig : Type 0 where
  pub output : Bytes
  pub stdout : Bool
  pub buffer_size : ℕ
  pub max_file_bytes : ℕ
  pub max_files : ℕ
  pub write_timeout_seconds : ℕ

pub record MetricsConfig : Type 0 where
  pub enabled : Bool
  pub bind : SocketAddr
  pub allow_remote : Bool
  pub max_connections : ℕ
  pub request_timeout_seconds : ℕ

pub record ServerConfig : Type 0 where
  pub max_concurrent_sessions : ℕ
  pub session_timeout_seconds : ℕ
  pub max_session_duration_seconds : ℕ
  pub shutdown_grace_seconds : ℕ
  pub rate_limit_per_ip_per_min : ℕ
  pub max_tracked_ips : ℕ
  pub max_bytes_per_session : ℕ
  pub max_read_bytes_per_session : ℕ
  pub ignore_source_ips : List IpAddr

pub data Protocol : Type 0 where
  raw ssh http telnet : Protocol

pub record EndpointConfig : Type 0 where
  pub name : Bytes
  pub bind : SocketAddr
  pub protocol : Protocol
  pub banner : Option Bytes
  pub server_header : Option Bytes
  pub http_status : Option ℕ
  pub login_prompt : Option Bytes

pub record Config : Type 0 where
  pub sensor : SensorConfig
  pub privacy : PrivacyConfig
  pub logging : LoggingConfig
  pub metrics : MetricsConfig
  pub server : ServerConfig
  pub endpoints : List EndpointConfig

-- `impl Default`
abbrev pub default_sensor : SensorConfig
default_sensor = record { id = codes "local-sensor"; environment = codes "development"; tags = [] }

abbrev pub default_privacy : PrivacyConfig
default_privacy = record { mode = metadata; capture_http_path = true }

abbrev pub default_logging : LoggingConfig
default_logging = record {
  output = codes "honeypot.jsonl";
  stdout = false;
  buffer_size = 256;
  max_file_bytes = 10 * 1024 * 1024;
  max_files = 3;
  write_timeout_seconds = 3;
}

abbrev pub default_metrics : MetricsConfig
default_metrics = record {
  enabled = false;
  bind = record { ip = v4 0x7f000001; port = 9090 };
  allow_remote = false;
  max_connections = 16;
  request_timeout_seconds = 3;
}

abbrev pub default_server : ServerConfig
default_server = record {
  max_concurrent_sessions = 256;
  session_timeout_seconds = 15;
  max_session_duration_seconds = 60;
  shutdown_grace_seconds = 10;
  rate_limit_per_ip_per_min = 30;
  max_tracked_ips = 4096;
  max_bytes_per_session = 1024;
  max_read_bytes_per_session = 65536;
  ignore_source_ips = [];
}

abbrev pub default_config : Config
default_config = record {
  sensor = default_sensor;
  privacy = default_privacy;
  logging = default_logging;
  metrics = default_metrics;
  server = default_server;
  endpoints = [];
}

-- `file_path`, without the conversion to a `PathBuf`
abbrev pub file_path : LoggingConfig → Option Bytes
file_path l = if bytes_eq l.output [] || bytes_eq l.output (codes "-") then none else some l.output

abbrev pub writes_stdout : LoggingConfig → Bool
writes_stdout l = l.stdout || not (is_some (file_path l))

-- `EndpointConfig::new`
abbrev pub new_endpoint : SocketAddr → Protocol → EndpointConfig
new_endpoint bind protocol = record {
  name = [];
  bind = bind;
  protocol = protocol;
  banner = none;
  server_header = none;
  http_status = none;
  login_prompt = none;
}

-- `Protocol::as_str`
abbrev pub protocol_str : Protocol → Bytes
protocol_str raw = codes "raw"
protocol_str ssh = codes "ssh"
protocol_str http = codes "http"
protocol_str telnet = codes "telnet"

unfoldable pub label : EndpointConfig → Bytes
label ep =
    if is_empty ep.name then protocol_str ep.protocol ++ (b'-' ∷ decimal ep.bind.port) else ep.name
