-- ===== src/Config/Address/Canonical.antt =====
-- Canonical addresses: the two forms of one IPv4 peer have one canonical form.
use honey_mind.Base.{ℕ, ◌^◌, ◌<◌, ◌≡◌, refl, ◌↔◌, true, arith}
use honey_mind.Config.Address.{IpAddr, v4, v6, ip_eq, to_ipv6_mapped, canonical_ip}

pub ip_eq_iff : (a b : IpAddr) → (ip_eq a b ≡ true) ↔ (a ≡ b)
ip_eq_iff (v4 a) (v4 b) = ground arith
ip_eq_iff _ _ = ground arith

pub canonical_ip_mapped : (a : ℕ) → a < 2 ^ 32 → canonical_ip (v6 (to_ipv6_mapped a)) ≡ v4 a
unfolding canonical_ip
canonical_ip_mapped a h = ground arith

-- An address that is its own canonical form: any but an IPv4-mapped IPv6 one.
abbrev pub IsCanonical : IpAddr → Type 0
IsCanonical ip = canonical_ip ip ≡ ip

pub canonical_ip-IsCanonical : (ip : IpAddr) → IsCanonical (canonical_ip ip)
unfolding canonical_ip
canonical_ip-IsCanonical (v4 a) = refl
canonical_ip-IsCanonical (v6 a) = ground arith
