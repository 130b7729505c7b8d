-- ===== src/Config/Address/Conflict.antt =====
-- When two binds conflict: when some peer address would reach both.
use honey_mind.Base.{◌==◌, ◌≡◌, ◌≢◌, ◌↔◌, Bool, true, false, ◌||◌, Bool-cases, arith, inl, inr}
use honey_mind.Config.Address.{
  IpAddr, v4, v6, SocketAddr, binds_conflict, ips_conflict, canonical_ip, is_wildcard_v6,
}

-- A listener on an address takes connections to that address, the one on 0.0.0.0 those to every IPv4
-- address, and the one on :: those to every address.
pub covers : IpAddr → IpAddr → Bool
covers (v4 a) (v4 b) = a == b || a == 0
covers (v4 a) (v6 b) = false
covers (v6 a) (v4 b) = a == 0
covers (v6 a) (v6 b) = a == b || a == 0

abbrev pub Shared : IpAddr → IpAddr → Type 0
Shared a b = (ip : IpAddr) × (covers a ip ≡ true) × (covers b ip ≡ true)

ips_conflict-Shared : (a b : IpAddr) → ips_conflict a b ≡ true → Shared a b
unfolding ips_conflict covers is_wildcard_v6
ips_conflict-Shared (v4 a) (v4 b) h = elim (Bool-cases (a == 0)) [
  | inl e ↦ (v4 b, ground arith, ground arith)
  | inr e ↦ (v4 a, ground arith, ground arith)
]
ips_conflict-Shared (v4 a) (v6 b) h = (v4 a, ground arith, ground arith)
ips_conflict-Shared (v6 a) (v4 b) h = (v4 b, ground arith, ground arith)
ips_conflict-Shared (v6 a) (v6 b) h = elim (Bool-cases (a == 0)) [
  | inl e ↦ (v6 b, ground arith, ground arith)
  | inr e ↦ (v6 a, ground arith, ground arith)
]

Shared-ips_conflict :
    (a b ip : IpAddr) → covers a ip ≡ true → covers b ip ≡ true → ips_conflict a b ≡ true
unfolding ips_conflict covers is_wildcard_v6
Shared-ips_conflict (v4 a) (v4 b) (v4 c) h k = ground arith
Shared-ips_conflict (v4 a) (v4 b) (v6 c) h k = ground arith
Shared-ips_conflict (v4 a) (v6 b) (v4 c) h k = ground arith
Shared-ips_conflict (v4 a) (v6 b) (v6 c) h k = ground arith
Shared-ips_conflict (v6 a) (v4 b) (v4 c) h k = ground arith
Shared-ips_conflict (v6 a) (v4 b) (v6 c) h k = ground arith
Shared-ips_conflict (v6 a) (v6 b) (v4 c) h k = ground arith
Shared-ips_conflict (v6 a) (v6 b) (v6 c) h k = ground arith

ports-equal :
    (a b : SocketAddr)
    → binds_conflict a b ≡ true
    → (a.port ≡ b.port)
      × (a.port ≢ 0)
      × (ips_conflict (canonical_ip a.ip) (canonical_ip b.ip) ≡ true)
unfolding binds_conflict
ports-equal a b h = ground arith

conflict_on_port :
    (a b : SocketAddr)
    → a.port ≡ b.port
    → a.port ≢ 0
    → ips_conflict (canonical_ip a.ip) (canonical_ip b.ip) ≡ true
    → binds_conflict a b ≡ true
unfolding binds_conflict
conflict_on_port a b e n c = ground arith

-- Two binds conflict exactly when they have one port, which is not 0, and some address is covered by
-- both of their canonical addresses.
pub binds_conflict-covers :
    (a b : SocketAddr)
    → (binds_conflict a b ≡ true)
      ↔ ((a.port ≡ b.port) × (a.port ≢ 0) × Shared (canonical_ip a.ip) (canonical_ip b.ip))
binds_conflict-covers a b = (
  λ h.
      let (e, n, c) = ports-equal a b h in
      (e, n, ips_conflict-Shared (canonical_ip a.ip) (canonical_ip b.ip) c),
  λ (e, n, (ip, h, k)).
      conflict_on_port a b e n (Shared-ips_conflict (canonical_ip a.ip) (canonical_ip b.ip) ip h k),
)
