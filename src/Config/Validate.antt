-- ===== src/Config/Validate.antt =====
-- src/config.rs: `validate`, check by check, and `from_toml` over a parser that is a parameter.
-- Products of two `u64` wrap, as in a release build.
pub mod Limits
pub mod Endpoints
pub mod Tests
use honey_mind.Config.Schema.{
  raw, ssh, http, telnet, Config, MetricsConfig, Protocol, SensorConfig, ServerConfig,
  EndpointConfig, LoggingConfig, http, telnet, ssh,
}
use honey_mind.Base.Text.{is_alphanumeric}
use honey_mind.Config.Address.{IpAddr, SocketAddr, canonical_ip, ip_eq, is_loopback, binds_conflict}
use honey_mind.Base.{
  ◌>>=◌, ◌>>◌, ltb, leb, ◌==◌, within, if◌then◌else◌, length, is_empty, all, any, Bytes, codes,
  bytes_eq, starts_with, ensure, Result, ok, err, ℕ, ◌+◌, ◌*◌, ◌%◌, ◌^◌, String, Bool, true, false,
  not, ◌&&◌, ◌||◌, Option, none, some, List, [], ◌∷◌, ◌++◌,
}

-- The failures, with what their messages name.
pub data ConfigError : Type 0 where
  message : String → ConfigError
  out_of_range : String → ℕ → ℕ → ConfigError
  bad_identifier : String → ConfigError
  bad_text : String → ℕ → ConfigError
  duplicate_ip : IpAddr → ConfigError
  duplicate_name : Bytes → ConfigError
  overlapping : SocketAddr → SocketAddr → ConfigError
  overlaps_metrics : SocketAddr → ConfigError
  invalid_toml : ConfigError

abbrev pub Check : Type 0
Check = Result (Unit {0}) ConfigError

abbrev pub mul64 : ℕ → ℕ → ℕ
mul64 a b = (a * b) % 2 ^ 64

unfoldable pub range : String → ℕ → ℕ → ℕ → Check
range name value lo hi = ensure (within lo hi value) (out_of_range name lo hi)

abbrev pub is_identifier_byte : ℕ → Bool
is_identifier_byte b = is_alphanumeric b || b == b'.' || b == b'_' || b == b'-'

abbrev pub is_identifier : Bytes → Bool
is_identifier value = not (is_empty value) && leb (length value) 64 && all is_identifier_byte value

unfoldable pub identifier : String → Bytes → Check
identifier name value = ensure (is_identifier value) (bad_identifier name)

-- `char::is_control`, on UTF-8: U+0000 to U+001F, U+007F, and U+0080 to U+009F
unfoldable pub has_control : Bytes → Bool
has_control [] = false
has_control (b ∷ []) = ltb b 0x20 || b == 0x7f
has_control (b ∷ c ∷ bytes) =
    ltb b 0x20 || b == 0x7f || b == 0xc2 && within 0x80 0x9f c || has_control (c ∷ bytes)

unfoldable pub safe_text : String → Bytes → ℕ → Check
safe_text name value most =
    ensure (not (ltb most (length value) || has_control value)) (bad_text name most)

pub check_tags : List (Bytes × Bytes) → Check
check_tags [] = ok tt
check_tags ((key, value) ∷ tags) =
    identifier "sensor tag key" key >> safe_text "sensor tag value" value 128 >> check_tags tags

pub check_sensor : SensorConfig → Check
check_sensor s =
    identifier "sensor.id" s.id
    >> identifier "sensor.environment" s.environment
    >> ensure (leb (length s.tags) 8) (message "sensor.tags allows at most 8 entries")
    >> check_tags s.tags

pub check_server : ServerConfig → Check
unfolding range
check_server s =
    range "server.max_concurrent_sessions" s.max_concurrent_sessions 1 4096
    >> range "server.session_timeout_seconds" s.session_timeout_seconds 1 300
    >> range "server.max_session_duration_seconds" s.max_session_duration_seconds 1 3600
    >> range "server.shutdown_grace_seconds" s.shutdown_grace_seconds 1 60
    >> range "server.rate_limit_per_ip_per_min" s.rate_limit_per_ip_per_min 0 10000
    >> range "server.max_tracked_ips" s.max_tracked_ips 1 65536
    >> range "server.max_bytes_per_session" s.max_bytes_per_session 0 65536
    >> range "server.max_read_bytes_per_session" s.max_read_bytes_per_session 1 16777216
    >> ensure (leb s.max_bytes_per_session s.max_read_bytes_per_session)
        (message "preview limit must not exceed the total read limit")
    >> ensure (leb (mul64 s.max_tracked_ips s.rate_limit_per_ip_per_min) 1000000)
        (message "rate-limit history budget exceeds 1,000,000 timestamps")
    >> ensure (leb (length s.ignore_source_ips) 256)
        (message "ignore_source_ips allows at most 256 addresses")

-- `HashSet::contains`, on the canonical addresses so far
abbrev pub has_ip : IpAddr → List IpAddr → Bool
has_ip ip = any (λ k. ip_eq k ip)

pub check_ignored : List IpAddr → List IpAddr → Check
check_ignored seen [] = ok tt
check_ignored seen (ip ∷ ips) =
    ensure (not (has_ip (canonical_ip ip) seen)) (duplicate_ip ip)
    >> check_ignored (canonical_ip ip ∷ seen) ips

pub check_logging : ServerConfig → LoggingConfig → Check
unfolding range
check_logging s l =
    ensure (not (any (λ b. b == 0) l.output)) (message "logging.output contains a NUL byte")
    >> range "logging.buffer_size" l.buffer_size 1 4096
    >> range "logging.max_file_bytes" l.max_file_bytes 1048576 1073741824
    >> range "logging.max_files" l.max_files 1 20
    >> range "logging.write_timeout_seconds" l.write_timeout_seconds 1 30
    >> ensure (leb (mul64 (65536 + 3 * s.max_bytes_per_session) l.buffer_size) 268435456)
        (message "logging queue budget exceeds 256 MiB; reduce buffer_size or preview size")

pub check_metrics : MetricsConfig → Check
unfolding range
check_metrics m =
    range "metrics.max_connections" m.max_connections 1 256
    >> range "metrics.request_timeout_seconds" m.request_timeout_seconds 1 30
    >> ensure (not m.enabled || is_loopback m.bind.ip || m.allow_remote)
        (message "non-loopback metrics requires allow_remote = true and a management firewall")

-- The name of an endpoint, and the names so far.
pub check_name : List Bytes → Bytes → Result (List Bytes) ConfigError
check_name names name =
    if is_empty name
    then ok names
    else (identifier "endpoint.name" name
        >> ensure (not (any (bytes_eq name) names)) (duplicate_name name)
        >> ok (name ∷ names))

pub check_previous : SocketAddr → List EndpointConfig → Check
check_previous bind [] = ok tt
check_previous bind (p ∷ previous) =
    ensure (not (binds_conflict bind p.bind)) (overlapping bind p.bind)
    >> check_previous bind previous

abbrev pub is_protocol : Protocol → Protocol → Bool
is_protocol raw raw = true
is_protocol ssh ssh = true
is_protocol http http = true
is_protocol telnet telnet = true
is_protocol _ _ = false

pub check_ssh_banner : Bytes → Check
check_ssh_banner banner =
    ensure (leb (length banner) 253) (message "SSH banner exceeds 253 bytes before CRLF")
    >> ensure (starts_with (codes "SSH-2.0-") banner || starts_with (codes "SSH-1.99-") banner)
        (message "SSH banner must start with SSH-2.0- or SSH-1.99-")
    >> ensure (all (within 0x20 0x7e) banner)
        (message "SSH banner must be printable ASCII without CR/LF")

pub check_banner : Protocol → Option Bytes → Check
check_banner p none = ok tt
check_banner p (some banner) =
    ensure (leb (length banner) 4096) (message "endpoint banner exceeds 4096 bytes")
    >> ensure (not (is_protocol p http)) (message "HTTP does not use endpoint.banner")
    >> (if is_protocol p ssh then check_ssh_banner banner else ok tt)

pub check_header : Protocol → Option Bytes → Check
check_header p none = ok tt
check_header p (some header) =
    ensure (is_protocol p http) (message "server_header is HTTP-only")
    >> ensure (not (is_empty header) && leb (length header) 256 && all (within 0x20 0x7e) header)
        (message "server_header must be 1..256 printable ASCII bytes without CR/LF")

pub check_status : Protocol → Option ℕ → Check
check_status p none = ok tt
check_status p (some status) =
    ensure (is_protocol p http) (message "http_status is HTTP-only")
    >> ensure (within 200 599 status) (message "http_status must be a final status in 200..599")

pub check_prompt : Protocol → Option Bytes → Check
check_prompt p none = ok tt
check_prompt p (some prompt) =
    ensure (is_protocol p telnet) (message "login_prompt is Telnet-only")
    >> safe_text "login_prompt" prompt 128
    >> ensure (not (is_empty prompt)) (message "login_prompt must not be empty")

-- The body of the loop behind the name.
pub check_endpoint : MetricsConfig → List EndpointConfig → EndpointConfig → Check
check_endpoint m previous ep =
    check_previous ep.bind previous
    >> ensure (not m.enabled || not (binds_conflict ep.bind m.bind)) (overlaps_metrics ep.bind)
    >> check_banner ep.protocol ep.banner
    >> check_header ep.protocol ep.server_header
    >> check_status ep.protocol ep.http_status
    >> check_prompt ep.protocol ep.login_prompt

pub check_endpoints : MetricsConfig → List Bytes → List EndpointConfig → List EndpointConfig → Check
check_endpoints m names previous [] = ok tt
check_endpoints m names previous (ep ∷ eps) = check_name names ep.name >>= λ names'.
    check_endpoint m previous ep >> check_endpoints m names' (previous ++ ep ∷ []) eps

pub validate : Config → Check
validate cfg =
    ensure (not (is_empty cfg.endpoints)) (message "at least one [[endpoint]] is required")
    >> range "endpoint count" (length cfg.endpoints) 1 32
    >> check_sensor cfg.sensor
    >> check_server cfg.server
    >> check_ignored [] cfg.server.ignore_source_ips
    >> check_logging cfg.server cfg.logging
    >> check_metrics cfg.metrics
    >> check_endpoints cfg.metrics [] [] cfg.endpoints

-- The parser of the crate `toml`; a text that it refuses gives `none`.
module _ (toml_from_str : Bytes → Option Config) where
  unfoldable pub from_toml : Bytes → Result Config ConfigError
  from_toml text =
      ensure (leb (length text) 65536) (message "config exceeds 64 KiB")
      >> (elim (toml_from_str text) [ none ↦ err invalid_toml | some cfg ↦ validate cfg >> ok cfg ])
