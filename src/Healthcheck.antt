-- ===== src/Healthcheck.antt =====
-- src/main.rs: `healthcheck`, the probe of a sensor that runs. The sockets are a parameter.
pub mod Readiness
pub mod Tests
use honey_mind.Base.{
  ltb, if◌then◌else◌, ensure, ◌>>◌, ◌>>=◌, Result, ok, err, Bytes, codes, bytes_eq, take, length,
  Bool, true, false, Option, none, some, List, ◌∷◌, ◌++◌, not, ◌||◌,
}
use honey_mind.Base.Text.{first_line, split_whitespace}
use honey_mind.Base.Utf8.{from_utf8}
use honey_mind.Config.Address.{IpAddr, SocketAddr, v4, v6, is_unspecified, is_ipv4}
use honey_mind.Config.Address.Display.{display}

-- What a probe meets at an address: whether it connects, whether the request is sent, and what is
-- read of the answer, with whether the reading comes to its end.
pub record Peer : Type 0 where
  pub connect : SocketAddr → Bool
  pub write_all : SocketAddr → Bytes → Bool
  pub answer : SocketAddr → Bytes → Bytes × Bool

pub data HealthError : Type 0 where
  cannot_connect write_failed read_failed invalid_response not_ready deadline_exceeded : HealthError

abbrev pub loopback : Bool → IpAddr
loopback true = v4 0x7f000001
loopback false = v6 1

unfoldable pub probed : SocketAddr → SocketAddr
probed a = if is_unspecified a.ip then record a { ip = loopback (is_ipv4 a.ip) } else a

abbrev pub request : SocketAddr → Bytes
request a =
    codes "GET /readyz HTTP/1.1\r\nHost: " ++ display a ++ codes "\r\nConnection: close\r\n\r\n"

-- `take(4096).read_to_end`
abbrev pub read_to_end : Bytes × Bool → Result Bytes HealthError
read_to_end (bytes, ended) =
    if ended || not (ltb (length bytes) 4096) then ok (take 4096 bytes) else err read_failed

abbrev pub or_invalid : Option Bytes → Result Bytes HealthError
or_invalid none = err invalid_response
or_invalid (some response) = ok response

-- `status == Some("200")`, for the words of the first line
abbrev pub is_200 : List Bytes → Bool
is_200 (version ∷ status ∷ rest) = bytes_eq status (codes "200")
is_200 _ = false

module _ (peer : Peer) where
  abbrev pub probe : SocketAddr → Result (Unit {0}) HealthError
  probe a =
      ensure (peer.connect a) cannot_connect
      >> ensure (peer.write_all a (request a)) write_failed
      >> do
        bytes ← read_to_end (peer.answer a (request a))
        response ← or_invalid (from_utf8 bytes)
        ensure (is_200 (split_whitespace (first_line response))) not_ready

  -- `in_time` tells whether the probe ends within its deadline.
  unfoldable pub healthcheck : Bool → SocketAddr → Result (Unit {0}) HealthError
  healthcheck in_time a = if in_time then probe (probed a) else err deadline_exceeded
