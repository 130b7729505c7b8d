-- ===== src/Config/Validate/Limits.antt =====
-- The budgets that hold of a configuration which `validate` accepts.
use honey_mind.Config.Address.{IpAddr, is_loopback, canonical_ip}
use honey_mind.Config.Schema.{ServerConfig, Config, LoggingConfig, MetricsConfig}
use honey_mind.Base.{
  ◌>>◌, ensure, Result, ok, err, ℕ, ◌*◌, ◌^◌, ◌≤◌, ◌<◌, ◌≡◌, refl, Bool, true, false, arith, length,
  ◌+◌, not, List, [], ◌∷◌, ◌||◌, leb, Bytes, bind-ok, subst, Option, none, some,
}
use honey_mind.Config.Validate.{
  check_server, mul64, check_ignored, check_logging, check_metrics, validate, check_sensor, has_ip,
  range, check_endpoints, ConfigError, from_toml, invalid_toml, message,
}

-- A check that passes, and what follows it.
pub ensure-ok :
    {E : Type 0} (b : Bool) (e : E) (k : Result (Unit {0}) E)
    → (ensure b e >> k) ≡ ok tt
    → (b ≡ true) × (k ≡ ok tt)
ensure-ok true e k h = (refl, h)
ensure-ok false e k h = ground arith

pub seq-ok : {E : Type 0} (m k : Result (Unit {0}) E) → (m >> k) ≡ ok tt → (m ≡ ok tt) × (k ≡ ok tt)
seq-ok (ok u) k h = (refl, h)
seq-ok (err e) k h = ground arith

-- The limits of the server, those on products with no wrap.
pub record ServerLimits (s : ServerConfig) : Type 0 where
  pub sessions : (1 ≤ s.max_concurrent_sessions) × (s.max_concurrent_sessions ≤ 4096)
  pub idle : (1 ≤ s.session_timeout_seconds) × (s.session_timeout_seconds ≤ 300)
  pub lifetime : (1 ≤ s.max_session_duration_seconds) × (s.max_session_duration_seconds ≤ 3600)
  pub grace : (1 ≤ s.shutdown_grace_seconds) × (s.shutdown_grace_seconds ≤ 60)
  pub rate : s.rate_limit_per_ip_per_min ≤ 10000
  pub tracked : (1 ≤ s.max_tracked_ips) × (s.max_tracked_ips ≤ 65536)
  pub preview : s.max_bytes_per_session ≤ s.max_read_bytes_per_session
  pub preview_limit : s.max_bytes_per_session ≤ 65536
  pub input : (1 ≤ s.max_read_bytes_per_session) × (s.max_read_bytes_per_session ≤ 16777216)
  pub history : s.max_tracked_ips * s.rate_limit_per_ip_per_min ≤ 1000000

no_wrap : (a b m n : ℕ) → a ≤ m → b ≤ n → m * n < 2 ^ 64 → mul64 a b ≡ a * b
no_wrap a b m n h k l = grind arith

check_server-ServerLimits : (s : ServerConfig) → check_server s ≡ ok tt → ServerLimits s
unfolding check_server
check_server-ServerLimits s h =
    ground (arith, no_wrap s.max_tracked_ips s.rate_limit_per_ip_per_min 65536 10000)

-- The queue of the logger holds at most 256 MiB.
pub record QueueLimits (s : ServerConfig) (l : LoggingConfig) : Type 0 where
  pub buffer : (1 ≤ l.buffer_size) × (l.buffer_size ≤ 4096)
  pub file_bytes : (1048576 ≤ l.max_file_bytes) × (l.max_file_bytes ≤ 1073741824)
  pub files : (1 ≤ l.max_files) × (l.max_files ≤ 20)
  pub write_timeout : (1 ≤ l.write_timeout_seconds) × (l.write_timeout_seconds ≤ 30)
  pub queue : (65536 + 3 * s.max_bytes_per_session) * l.buffer_size ≤ 268435456

check_logging-QueueLimits :
    (s : ServerConfig) (l : LoggingConfig)
    → s.max_bytes_per_session ≤ 65536
    → check_logging s l ≡ ok tt
    → QueueLimits s l
unfolding check_logging
check_logging-QueueLimits s l b h =
    ground (arith, no_wrap (65536 + 3 * s.max_bytes_per_session) l.buffer_size 262144 4096)

-- No address is ignored twice, in either of its forms.
abbrev pub Unseen : List IpAddr → List IpAddr → Type 0
Unseen seen [] = Unit {0}
Unseen seen (ip ∷ ips) =
    (has_ip (canonical_ip ip) seen ≡ false) × Unseen (canonical_ip ip ∷ seen) ips

check_ignored-Unseen : (seen ips : List IpAddr) → check_ignored seen ips ≡ ok tt → Unseen seen ips
unfolding check_ignored
check_ignored-Unseen seen [] h = tt
check_ignored-Unseen seen (ip ∷ ips) h =
    let (fresh, rest) = ensure-ok (not (has_ip (canonical_ip ip) seen)) _ _ h in
    (ground arith, check_ignored-Unseen (canonical_ip ip ∷ seen) ips rest)

check_metrics_remote :
    (m : MetricsConfig)
    → check_metrics m ≡ ok tt
    → (not m.enabled || is_loopback m.bind.ip || m.allow_remote) ≡ true
unfolding check_metrics
check_metrics_remote m h = ground arith

-- The parts of an accepted configuration, each with its check.
pub record Checked (cfg : Config) : Type 0 where
  pub some_endpoint : 1 ≤ length cfg.endpoints
  pub few_endpoints : length cfg.endpoints ≤ 32
  pub sensor : check_sensor cfg.sensor ≡ ok tt
  pub server : check_server cfg.server ≡ ok tt
  pub ignored : check_ignored [] cfg.server.ignore_source_ips ≡ ok tt
  pub logging : check_logging cfg.server cfg.logging ≡ ok tt
  pub metrics : check_metrics cfg.metrics ≡ ok tt
  pub endpoints : check_endpoints cfg.metrics [] [] cfg.endpoints ≡ ok tt

pub validate-Checked : (cfg : Config) → validate cfg ≡ ok tt → Checked cfg
unfolding validate range
validate-Checked cfg h = ground arith

-- What an accepted configuration bounds. Every limit of the server lies in its range, the limits
-- of the rate limiter allow at most 1,000,000 instants, and the preview is no larger than what may be
-- read. The log queue holds at most 256 MiB of records of the estimated size. No product wraps. No
-- address is ignored twice. A management listener that is enabled and not on a loopback address is
-- one that the configuration allows to be remote.
pub validate-limits :
    (cfg : Config)
    → validate cfg ≡ ok tt
    → ServerLimits cfg.server
      × QueueLimits cfg.server cfg.logging
      × Unseen [] cfg.server.ignore_source_ips
      × ((not cfg.metrics.enabled || is_loopback cfg.metrics.bind.ip || cfg.metrics.allow_remote)
          ≡ true)
validate-limits cfg h =
    let k = validate-Checked cfg h in
    let s = check_server-ServerLimits cfg.server k.server in
    (
      s,
      check_logging-QueueLimits cfg.server cfg.logging s.preview_limit k.logging,
      check_ignored-Unseen [] cfg.server.ignore_source_ips k.ignored,
      check_metrics_remote cfg.metrics k.metrics,
    )

module _ (toml_from_str : Bytes → Option Config) where
  validated_only :
      (parsed : Option Config) (cfg : Config)
      → (elim parsed as (λ _. Result Config ConfigError) [
        | none ↦ err invalid_toml
        | some c ↦ validate c >> ok c
      ])
        ≡ ok cfg
      → validate cfg ≡ ok tt
  validated_only none cfg h = absurd (ground arith)
  validated_only (some c) cfg h =
      let (u, accepted, same) = bind-ok (validate c) (λ _. ok c) cfg h in
      subst (λ d. validate d ≡ ok tt) (ground (arith, same)) accepted

  -- What `from_toml` returns is accepted.
  pub from_toml-validate :
      (text : Bytes) (cfg : Config) → from_toml toml_from_str text ≡ ok cfg → validate cfg ≡ ok tt
  unfolding from_toml
  from_toml-validate text cfg h =
      let (u, short, rest) =
        bind-ok (ensure (leb (length text) 65536) (message "config exceeds 64 KiB")) _ cfg h in
      validated_only (toml_from_str text) cfg rest
