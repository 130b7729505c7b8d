-- ===== src/Healthcheck/Readiness.antt =====
-- The probe against the management endpoint of src/metrics.rs, which hyper serves.
use honey_mind.Config.Address.Display.{display}
use honey_mind.Config.Address.{SocketAddr, IpAddr, is_unspecified, is_ipv4, is_loopback, ip_eq}
use honey_mind.Base.{
  all, ltb, Bytes, codes, ◌≡◌, true, ◌∷◌, ◌++◌, Bool, false, [], Option, ◌==◌, within,
  if◌then◌else◌, is_empty, starts_with, not, ◌&&◌, none, some,
}
use honey_mind.Base.Decimal.{decimal}
use honey_mind.Base.Text.{first_line, split_whitespace}
use honey_mind.Metrics.{Reply, Metrics, handle}
use honey_mind.Healthcheck.{is_200, Peer}

-- A response as HTTP/1.1 lays it out: the version, the status, and what follows, all of it ASCII.
pub record IsHttp1 (r : Reply) (bytes : Bytes) : Type 0 where
  pub rest : Bytes
  pub line : bytes ≡ codes "HTTP/1.1 " ++ decimal r.status ++ b' ' ∷ rest
  pub ascii : all (λ b. ltb b 0x80) bytes ≡ true

-- The word after the version.
says_200 : Bytes → Bool
says_200 bytes = is_200 (split_whitespace (first_line bytes))

-- What hyper reads of a request, and how it lays a response out, as far as the two agree on HTTP/1.1.
pub record Hyper : Type 0 where
  pub read_request : Bytes → Option (Bytes × Bytes)
  pub layout : Reply → Bytes
  pub reads :
      (method path : Bytes) (a : SocketAddr)
      → is_empty method ≡ false
      → all (within b'A' b'Z') method ≡ true
      → starts_with (codes "/") path ≡ true
      → all (within 0x21 0x7e) path ≡ true
      → read_request (
          method
          ++ (b' '
              ∷ (path
                  ++ (b' '
                      ∷ (codes "HTTP/1.1\r\nHost: "
                          ++ (display a ++ codes "\r\nConnection: close\r\n\r\n"))))))
        ≡ some (method, path)
  pub lays : (r : Reply) → all (λ b. ltb b 0x80) r.body ≡ true → IsHttp1 r (layout r)

abbrev ip_family : IpAddr → IpAddr → Bool
ip_family a b = if is_ipv4 a then is_ipv4 b else not (is_ipv4 b)

-- Whether a listener that is bound to one address is met at another: at its own, and, where that is a
-- wildcard, at a loopback address of its family.
abbrev pub listens : SocketAddr → SocketAddr → Bool
listens bind a =
    a.port == bind.port
    && (if is_unspecified bind.ip
        then is_loopback a.ip && ip_family a.ip bind.ip
        else ip_eq a.ip bind.ip)

-- What a probe meets where the management endpoint of a sensor is bound.
abbrev pub sensor_peer : Hyper → (Metrics → Option Bytes) → Metrics → SocketAddr → Peer
sensor_peer hyper render m bind = record {
  connect = listens bind;
  write_all = λ a bytes. listens bind a;
  answer = λ a bytes. elim (hyper.read_request bytes) as (λ _. Bytes × Bool) [
    | none ↦ ([], true)
    | some q ↦ (hyper.layout (handle render q.0 q.1 m), true)
  ];
}
