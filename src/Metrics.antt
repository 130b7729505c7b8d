-- ===== src/Metrics.antt =====
-- src/metrics.rs: the counters that the other components move, and the management endpoint's `handle`.
-- A counter has no bound here. The histogram of durations is the list of what it observed.
use honey_mind.Config.Validate.{is_protocol}
use honey_mind.Config.Schema.{Protocol}
use honey_mind.Base.{
  ◌==◌, if◌then◌else◌, Bytes, codes, bytes_eq, ℕ, ◌+◌, String, ◌≡◌, ◌↔◌, Bool, true, false, not,
  ◌&&◌, Option, none, some, List, [], arith, ◌∷◌, ◌++◌,
}
use text.Mathlib.Text.{◌==◌ as str_eq}

-- Counters by protocol, and by protocol and a second label.
pub record Metrics : Type 0 where
  pub connections_total : Protocol → ℕ
  pub rejected_total : Protocol → String → ℕ
  pub active_sessions : ℕ
  pub bytes_received_total : Protocol → ℕ
  pub session_durations : List (Protocol × ℕ)
  pub closed_sessions_total : Protocol → String → ℕ
  pub events_total : Protocol → String → ℕ
  pub logger_written_total : ℕ
  pub logger_dropped_total : String → ℕ
  pub logger_errors_total : ℕ
  pub tracked_ips : ℕ
  pub ready : ℕ
  pub metrics_active_connections : ℕ
  pub metrics_rejected_total : ℕ

-- `Metrics::new`: every counter at 0.
abbrev pub new_metrics : Metrics
new_metrics = record {
  connections_total = λ p. 0;
  rejected_total = λ p r. 0;
  active_sessions = 0;
  bytes_received_total = λ p. 0;
  session_durations = [];
  closed_sessions_total = λ p r. 0;
  events_total = λ p r. 0;
  logger_written_total = 0;
  logger_dropped_total = λ r. 0;
  logger_errors_total = 0;
  tracked_ips = 0;
  ready = 0;
  metrics_active_connections = 0;
  metrics_rejected_total = 0;
}

-- `with_label_values(&[p]).inc_by(n)`
abbrev pub add_at : Protocol → ℕ → (Protocol → ℕ) → Protocol → ℕ
add_at p n f q = if is_protocol p q then f q + n else f q

-- `with_label_values(&[p, label]).inc()`
abbrev pub inc_label : Protocol → String → (Protocol → String → ℕ) → Protocol → String → ℕ
inc_label p l f q k = if is_protocol p q && str_eq l k then f q k + 1 else f q k

-- A response: its status, its headers in the order of their insertion, and its body.
pub record Reply : Type 0 where
  pub status : ℕ
  pub headers : List (Bytes × Bytes)
  pub body : Bytes

abbrev pub content_type : Bool → Bytes
content_type prometheus =
    if prometheus
    then codes "text/plain; version=0.0.4; charset=utf-8"
    else codes "text/plain; charset=utf-8"

abbrev pub reply : ℕ → Bytes → Bool → Reply
reply status body prometheus = record {
  status = status;
  headers =
      (codes "content-type", content_type prometheus)
      ∷ (codes "connection", codes "close")
      ∷ (codes "cache-control", codes "no-store")
      ∷ [];
  body = body;
}

-- `headers_mut().insert` of a name that is not there yet
abbrev pub with_header : Reply → Bytes → Bytes → Reply
with_header r name value = record r { headers = r.headers ++ (name, value) ∷ [] }

-- `render` is the encoder of the crate `prometheus`, a parameter.
module _ (render : Metrics → Option Bytes) where
  scrape : Option Bytes → Reply
  scrape none = reply 500 (codes "render failed\n") false
  scrape (some bytes) = reply 200 bytes true

  unfoldable pub handle : Bytes → Bytes → Metrics → Reply
  unfolding scrape
  handle method path m =
      if not (bytes_eq method (codes "GET"))
      then with_header (reply 405 (codes "method not allowed\n") false) (codes "allow")
          (codes "GET")
      else if bytes_eq path (codes "/metrics")
      then scrape (render m)
      else if bytes_eq path (codes "/healthz")
      then reply 200 (codes "ok\n") false
      else if bytes_eq path (codes "/readyz") && (m.ready == 1 && m.logger_errors_total == 0)
      then reply 200 (codes "ready\n") false
      else if bytes_eq path (codes "/readyz")
      then reply 503 (codes "not ready\n") false
      else reply 404 (codes "not found\n") false

  -- The readiness probe answers 200 exactly when the server is ready and the writer has not failed.
  pub handle_ready :
      (m : Metrics)
      → ((handle (codes "GET") (codes "/readyz") m).status ≡ 200)
        ↔ ((m.ready ≡ 1) × (m.logger_errors_total ≡ 0))
  unfolding handle
  handle_ready m = ground arith
