-- ===== src/Config/Validate/Endpoints.antt =====
-- What `validate` makes sure of the endpoints, each alone and each against the others.
use honey_mind.Config.Validate.Limits.{ensure-ok, validate-Checked}
use honey_mind.Config.Validate.{
  check_banner, check_previous, check_ssh_banner, has_control, check_endpoint, check_endpoints,
  check_header, check_prompt, check_status, ConfigError, safe_text, validate, check_name,
}
use honey_mind.Config.Schema.{
  EndpointConfig, MetricsConfig, ssh, Protocol, raw, http, telnet, Config,
}
use honey_mind.Config.Address.{SocketAddr, binds_conflict}
use honey_mind.Base.{
  within, length, all, All, Bytes, ok, ℕ, ◌≤◌, ◌≡◌, true, false, not, Option, none, some, List, [],
  ◌∷◌, ◌++◌, arith, ◌>>=◌, ◌>>◌, Result, err, ◌&&◌, is_empty, codes, starts_with, ◌||◌,
}

-- No bind conflicts with one before it, nor with the management bind if that is enabled.
abbrev pub NoConflict : SocketAddr → EndpointConfig → Type 0
NoConflict bind p = binds_conflict bind p.bind ≡ false

abbrev pub Separate : MetricsConfig → List EndpointConfig → List EndpointConfig → Type 0
Separate m previous [] = Unit {0}
Separate m previous (ep ∷ eps) =
    All (NoConflict ep.bind) previous
    × ((m.enabled && binds_conflict ep.bind m.bind) ≡ false)
    × Separate m (previous ++ ep ∷ []) eps

-- What an optional field holds.
abbrev pub AllSome : {A : Type 0} → (A → Type 0) → Option A → Type 0
AllSome P none = Unit {0}
AllSome P (some x) = P x

abbrev pub IsSshBanner : Bytes → Type 0
IsSshBanner b =
    (length b ≤ 253)
    × (all (within 0x20 0x7e) b ≡ true)
    × ((starts_with (codes "SSH-2.0-") b || starts_with (codes "SSH-1.99-") b) ≡ true)

abbrev pub IsBanner : Protocol → Bytes → Type 0
IsBanner raw b = length b ≤ 4096
IsBanner ssh b = IsSshBanner b
IsBanner http b = ⊥
IsBanner telnet b = length b ≤ 4096

abbrev pub IsHeader : Protocol → Bytes → Type 0
IsHeader p b =
    (p ≡ http) × (is_empty b ≡ false) × (length b ≤ 256) × (all (within 0x20 0x7e) b ≡ true)

abbrev pub IsStatus : Protocol → ℕ → Type 0
IsStatus p n = (p ≡ http) × (200 ≤ n) × (n ≤ 599)

abbrev pub IsPrompt : Protocol → Bytes → Type 0
IsPrompt p b = (p ≡ telnet) × (is_empty b ≡ false) × (length b ≤ 128) × (has_control b ≡ false)

-- What a protocol's fields may hold.
pub record IsServable (ep : EndpointConfig) : Type 0 where
  pub banner_fits : AllSome (IsBanner ep.protocol) ep.banner
  pub http_header : AllSome (IsHeader ep.protocol) ep.server_header
  pub http_final : AllSome (IsStatus ep.protocol) ep.http_status
  pub telnet_prompt : AllSome (IsPrompt ep.protocol) ep.login_prompt

check_previous-NoConflict :
    (bind : SocketAddr) (ps : List EndpointConfig)
    → check_previous bind ps ≡ ok tt
    → All (NoConflict bind) ps
unfolding check_previous
check_previous-NoConflict bind [] h = tt
check_previous-NoConflict bind (p ∷ ps) h =
    let (free, rest) = ensure-ok (not (binds_conflict bind p.bind)) _ _ h in
    (ground arith, check_previous-NoConflict bind ps rest)

IsBanner-ok : (p : Protocol) (o : Option Bytes) → check_banner p o ≡ ok tt → AllSome (IsBanner p) o
unfolding check_banner check_ssh_banner
IsBanner-ok p none h = tt
IsBanner-ok raw (some b) h = ground arith
IsBanner-ok ssh (some b) h = ground arith
IsBanner-ok http (some b) h = absurd (ground arith)
IsBanner-ok telnet (some b) h = ground arith

IsHeader-ok : (p : Protocol) (o : Option Bytes) → check_header p o ≡ ok tt → AllSome (IsHeader p) o
unfolding check_header
IsHeader-ok p none h = tt
IsHeader-ok p (some b) h = ground arith

IsStatus-ok : (p : Protocol) (o : Option ℕ) → check_status p o ≡ ok tt → AllSome (IsStatus p) o
unfolding check_status
IsStatus-ok p none h = tt
IsStatus-ok p (some n) h = ground arith

IsPrompt-ok : (p : Protocol) (o : Option Bytes) → check_prompt p o ≡ ok tt → AllSome (IsPrompt p) o
unfolding check_prompt safe_text
IsPrompt-ok p none h = tt
IsPrompt-ok p (some b) h = ground arith

record EndpointChecks (m : MetricsConfig) (previous : List EndpointConfig) (ep : EndpointConfig)
    : Type 0 where
  previous_ok : check_previous ep.bind previous ≡ ok tt
  metrics_ok : (m.enabled && binds_conflict ep.bind m.bind) ≡ false
  banner : check_banner ep.protocol ep.banner ≡ ok tt
  header : check_header ep.protocol ep.server_header ≡ ok tt
  status : check_status ep.protocol ep.http_status ≡ ok tt
  prompt : check_prompt ep.protocol ep.login_prompt ≡ ok tt

check_endpoint-EndpointChecks :
    (m : MetricsConfig) (previous : List EndpointConfig) (ep : EndpointConfig)
    → check_endpoint m previous ep ≡ ok tt
    → EndpointChecks m previous ep
unfolding check_endpoint
check_endpoint-EndpointChecks m previous ep h = record {
  previous_ok = ground arith;
  metrics_ok = ground arith;
  banner = ground arith;
  header = ground arith;
  status = ground arith;
  prompt = ground arith;
}

EndpointChecks-IsServable :
    {m : MetricsConfig} {previous : List EndpointConfig} {ep : EndpointConfig}
    → EndpointChecks m previous ep
    → IsServable ep
EndpointChecks-IsServable {ep} k = record {
  banner_fits = IsBanner-ok ep.protocol ep.banner k.banner;
  http_header = IsHeader-ok ep.protocol ep.server_header k.header;
  http_final = IsStatus-ok ep.protocol ep.http_status k.status;
  telnet_prompt = IsPrompt-ok ep.protocol ep.login_prompt k.prompt;
}

check_endpoints-step :
    (m : MetricsConfig) (names : List Bytes) (previous : List EndpointConfig) (ep : EndpointConfig)
    (eps : List EndpointConfig)
    → check_endpoints m names previous (ep ∷ eps) ≡ ok tt
    → (names' : List Bytes) × (check_endpoint m previous ep ≡ ok tt)
      × (check_endpoints m names' (previous ++ ep ∷ []) eps ≡ ok tt)
unfolding check_endpoints
check_endpoints-step m names previous ep eps h = go (check_name names ep.name) h
  where
    go :
        (r : Result (List Bytes) ConfigError)
        → (r >>= λ names'.
            check_endpoint m previous ep >> check_endpoints m names' (previous ++ ep ∷ []) eps)
          ≡ ok tt
        → (names' : List Bytes) × (check_endpoint m previous ep ≡ ok tt)
          × (check_endpoints m names' (previous ++ ep ∷ []) eps ≡ ok tt)
    go (ok names') e = (names', ground arith, ground arith)
    go (err x) e = absurd (ground arith)

check_endpoints-Separate :
    (m : MetricsConfig) (names : List Bytes) (previous eps : List EndpointConfig)
    → check_endpoints m names previous eps ≡ ok tt
    → Separate m previous eps × All IsServable eps
check_endpoints-Separate m names previous [] h = (tt, tt)
check_endpoints-Separate m names previous (ep ∷ eps) h =
    let (names', one, rest) = check_endpoints-step m names previous ep eps h in
    let k = check_endpoint-EndpointChecks m previous ep one in
    let (apart, served) = check_endpoints-Separate m names' (previous ++ ep ∷ []) eps rest in
    (
      (check_previous-NoConflict ep.bind previous k.previous_ok, k.metrics_ok, apart),
      (EndpointChecks-IsServable k, served),
    )

-- In a configuration that `validate` accepts no endpoint binds where one before it does, nor where
-- the management listener does if that is enabled. An HTTP endpoint has no banner, and the other banners are
-- of at most 4096 bytes; one of SSH is printable ASCII of at most 253 bytes that starts with SSH-2.0- or
-- SSH-1.99-. Only HTTP endpoints have a server header, which is printable ASCII of 1 to 256 bytes, or a
-- status, which lies in 200 to 599. Only Telnet endpoints have a prompt, which is of 1 to 128 bytes and
-- has no control character.
pub validate-endpoints :
    (cfg : Config)
    → validate cfg ≡ ok tt
    → Separate cfg.metrics [] cfg.endpoints × All IsServable cfg.endpoints
validate-endpoints cfg h =
    check_endpoints-Separate cfg.metrics [] [] cfg.endpoints (validate-Checked cfg h).endpoints
