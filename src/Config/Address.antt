-- ===== src/Config/Address.antt =====
-- src/config.rs: socket addresses, `canonical_ip` and `binds_conflict`. An address is the number
-- that its octets spell, most significant first: below 2 ^ 32 for IPv4, below 2 ^ 128 for IPv6.
pub mod Canonical
pub mod Conflict
pub mod Display
mod Tests
use honey_mind.Base.{
  ℕ, ◌*◌, ◌+◌, ◌/◌, ◌%◌, ◌^◌, Bool, true, false, not, ◌&&◌, ◌||◌, Option, none, some, ◌==◌,
  if◌then◌else◌,
}

-- `std::net::IpAddr`
pub data IpAddr : Type 0 where
  v4 : ℕ → IpAddr
  v6 : ℕ → IpAddr

pub record SocketAddr : Type 0 where
  pub ip : IpAddr
  pub port : ℕ

-- `PartialEq` of `IpAddr`
abbrev pub ip_eq : IpAddr → IpAddr → Bool
ip_eq (v4 a) (v4 b) = a == b
ip_eq (v6 a) (v6 b) = a == b
ip_eq _ _ = false

abbrev pub is_ipv4 : IpAddr → Bool
is_ipv4 (v4 _) = true
is_ipv4 (v6 _) = false

abbrev pub is_unspecified : IpAddr → Bool
is_unspecified (v4 a) = a == 0
is_unspecified (v6 a) = a == 0

abbrev pub is_loopback : IpAddr → Bool
is_loopback (v4 a) = a / 2 ^ 24 == 127
is_loopback (v6 a) = a == 1

-- the prefix ::ffff:0:0/96
abbrev pub mapped_prefix : ℕ
mapped_prefix = 0xffff

-- `Ipv6Addr::to_ipv4_mapped`
pub to_ipv4_mapped : ℕ → Option ℕ
to_ipv4_mapped a = if a / 2 ^ 32 == mapped_prefix then some (a % 2 ^ 32) else none

-- `Ipv4Addr::to_ipv6_mapped`, the other way round
abbrev pub to_ipv6_mapped : ℕ → ℕ
to_ipv6_mapped a = mapped_prefix * 2 ^ 32 + a

unfoldable pub canonical_ip : IpAddr → IpAddr
unfolding to_ipv4_mapped
canonical_ip (v6 a) = elim (to_ipv4_mapped a) [ none ↦ v6 a | some b ↦ v4 b ]
canonical_ip (v4 a) = v4 a

is_wildcard_v6 : IpAddr → Bool
is_wildcard_v6 (v6 a) = a == 0
is_wildcard_v6 (v4 _) = false

-- the comparison behind the test on the ports, of canonical addresses
ips_conflict : IpAddr → IpAddr → Bool
unfolding is_wildcard_v6
ips_conflict a b =
    if ip_eq a b
    then true
    else if is_ipv4 a && is_ipv4 b || not (is_ipv4 a) && not (is_ipv4 b)
    then is_unspecified a || is_unspecified b
    else is_wildcard_v6 a || is_wildcard_v6 b

unfoldable pub binds_conflict : SocketAddr → SocketAddr → Bool
unfolding ips_conflict
binds_conflict a b =
    if a.port == 0 || b.port == 0 || not (a.port == b.port)
    then false
    else ips_conflict (canonical_ip a.ip) (canonical_ip b.ip)
